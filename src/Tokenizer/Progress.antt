-- ===== src/Tokenizer/Progress.antt =====
-- Every case of the switch of `scan_next_token` moves over its token and gives it the span of the
-- state where it stops (src/amun_tokenizer.cpp).
mod Tokens
mod Numbers
mod Texts
use amun.Prelude.{
  ℕ, suc, zero, ◌+◌, ◌≤◌, ◌≡◌, ◌≢◌, refl, sym, Bool, true, false, arith, Bool-cases, inl, inr, ◌==◌,
  if◌then◌else◌, ◌&&◌, ◌||◌, Option, some, none, List, ◌∷◌, [], ◌++◌, String, not,
}
use amun.Prelude.Text.{Bytes, codes}
use amun.Token.{TokenKind, Token, token_invalid, token_character, token_end_of_file}
use amun.Tokenizer.{
  Tokenizer, is_source_available, peek, peek_next, step, advance, match, match_two, advance_while,
  build_token, build_token_span, Scanned, branch, on_match, on_both, remaining,
}
use amun.Tokenizer.Moves.{
  Moves, Moves-refl, Moves-trans, advance-Moves, match_two-Moves, advance_while-Moves, Scans,
  Scanner, build_token-Scans, Scans-after, branch-Scans, on_match-Scanner, on_both-Scanner,
  if-Scans,
}
use amun.Tokenizer.Chars.{
  is_digit, is_hex_digit, is_binary_digit, is_octal_digit, is_alpha, is_underscore, hex_to_decimal,
  binary_to_decimal, octal_to_decimal,
}
use amun.Tokenizer.Number.{
  digits, digit_or_underscore, scan_digits, signed_suffix, unsigned_suffix, float_suffix,
  number_token, no_suffix, after_signed, after_digits, consume_number,
}
use amun.Tokenizer.Radix.{
  radix_token, consume_radix, consume_hex_number, consume_binary_number, consume_octal_number,
}
use amun.Tokenizer.Text.{
  consume_symbol, consume_one_character, hex_escape, simple_escape, escape_switch, string_token,
  string_loop, character_token, consume_string, consume_character, symbol_char, minus_one,
}
use amun.Tokenizer.Scan.{
  one_character, two_characters, assign_or_twice, scan_minus, scan_greater, scan_shift,
  scan_smaller, scan_zero, scan_other, scan_switch, switch_one, switch_two, switch_assign,
}
use amun.Tokenizer.Progress.Tokens.{
  token-Scans, advance-Scans, Arrives, if-Arrives, arrive, Arrives-after,
}
use amun.Tokenizer.Progress.Numbers.{
  consume_number-Scanner, consume_hex_number-Scanner, consume_binary_number-Scanner,
  consume_octal_number-Scanner,
}
use amun.Tokenizer.Progress.Texts.{
  consume_symbol-Scanner, consume_string-Scanner, consume_character-Scanner,
}

scan_minus-Scanner : Scanner scan_minus
unfolding scan_minus
scan_minus-Scanner = on_match-Scanner _ (token-Scans _ _) (
    on_match-Scanner _ (on_match-Scanner _ (token-Scans _ _) (token-Scans _ _))
      (on_match-Scanner _ (token-Scans _ _) (token-Scans _ _)))

scan_shift-Scanner : Scanner scan_shift
unfolding scan_shift
scan_shift-Scanner s =
    branch-Scans _ _ (match_two b'>' b'=' s) (match_two-Moves b'>' b'=' s (omega arith))
      (token-Scans _ _) (token-Scans _ _)

scan_greater-Scanner : Scanner scan_greater
unfolding scan_greater
scan_greater-Scanner = on_match-Scanner _ (token-Scans _ _) scan_shift-Scanner

scan_smaller-Scanner : Scanner scan_smaller
unfolding scan_smaller
scan_smaller-Scanner =
    on_match-Scanner _ (token-Scans _ _) (
      on_match-Scanner _ (on_match-Scanner _ (token-Scans _ _) (token-Scans _ _)) (token-Scans _ _))

scan_zero-Scanner : Scanner scan_zero
unfolding scan_zero
scan_zero-Scanner = on_match-Scanner _ consume_hex_number-Scanner (
    on_match-Scanner _ consume_binary_number-Scanner
      (on_match-Scanner _ consume_octal_number-Scanner consume_number-Scanner))

scan_other-Scanner : (c : ℕ) → Scanner (scan_other c)
unfolding scan_other
scan_other-Scanner c s = if-Scans (c == b'-') (scan_minus-Scanner s) (
    if-Scans (c == b'>') (scan_greater-Scanner s) (
      if-Scans (c == b'<') (scan_smaller-Scanner s) (
        if-Scans (is_alpha c || c == b'_') (consume_symbol-Scanner s) (
          if-Scans (c == b'"') (consume_string-Scanner s) (
            if-Scans (c == b'\'') (consume_character-Scanner s) (
              if-Scans (c == b'0') (scan_zero-Scanner s) (
                if-Scans (is_digit c) (consume_number-Scanner s) (
                  if-Scans (c == 0) (token-Scans token_end_of_file [] s)
                    (token-Scans token_invalid (codes "unexpected character") s)))))))))

switch_assign-Scanner :
    (c : ℕ) (o : Option (TokenKind × TokenKind × TokenKind)) → Scanner (switch_assign c o)
unfolding switch_assign
switch_assign-Scanner c (some (assign, twice, one)) =
    on_match-Scanner _ (token-Scans _ _) (on_match-Scanner _ (token-Scans _ _) (token-Scans _ _))
switch_assign-Scanner c none = scan_other-Scanner c

switch_two-Scanner : (c : ℕ) (o : Option (ℕ × TokenKind × TokenKind)) → Scanner (switch_two c o)
unfolding switch_two
switch_two-Scanner c (some (next, both, one)) =
    on_match-Scanner _ (token-Scans _ _) (token-Scans _ _)
switch_two-Scanner c none = switch_assign-Scanner c (assign_or_twice c)

switch_one-Scanner : (c : ℕ) (o : Option TokenKind) → Scanner (switch_one c o)
unfolding switch_one
switch_one-Scanner c (some kind) = token-Scans _ _
switch_one-Scanner c none = switch_two-Scanner c (two_characters c)

pub scan_switch-Scanner : (c : ℕ) → Scanner (scan_switch c)
unfolding scan_switch
scan_switch-Scanner c = switch_one-Scanner c (one_character c)
