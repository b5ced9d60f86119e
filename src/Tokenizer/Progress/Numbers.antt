-- ===== src/Tokenizer/Progress/Numbers.antt =====
-- The literals of numbers move over their token (src/amun_tokenizer.cpp).
use amun.Prelude.{ℕ, Bool, ◌||◌, Option, some, none, String}
use amun.Prelude.Text.{Bytes}
use amun.Token.{TokenKind}
use amun.Tokenizer.{Tokenizer, peek, Scanned, remaining}
use amun.Tokenizer.Moves.{
  Moves, Moves-refl, Moves-trans, advance-Moves, advance_while-Moves, Scans, Scanner,
  build_token-Scans, Scans-after, on_match-Scanner, on_both-Scanner, if-Scans,
}
use amun.Tokenizer.Chars.{
  is_hex_digit, is_binary_digit, is_octal_digit, is_alpha, is_underscore, hex_to_decimal,
  binary_to_decimal, octal_to_decimal,
}
use amun.Tokenizer.Number.{
  digits, digit_or_underscore, scan_digits, signed_suffix, unsigned_suffix, float_suffix,
  number_token, no_suffix, after_signed, after_digits, consume_number,
}
use amun.Tokenizer.Radix.{
  radix_token, consume_radix, consume_hex_number, consume_binary_number, consume_octal_number,
}
use amun.Tokenizer.Progress.Tokens.{token-Scans, Arrives, if-Arrives, arrive}

digits-Moves : (s : Tokenizer) → Moves s (digits s)
digits-Moves s = advance_while-Moves digit_or_underscore (remaining s) s

scan_digits-Arrives : (s : Tokenizer) → Arrives s (scan_digits s)
unfolding scan_digits
scan_digits-Arrives s =
    if-Arrives _
      (arrive _ (Moves-trans (digits-Moves s) (Moves-trans (advance-Moves _) (digits-Moves _))))
      (arrive _ (digits-Moves s))

number_token-Scanner : (end : ℕ) (kind : TokenKind) → Scanner (number_token end kind)
unfolding number_token
number_token-Scanner end kind s = build_token-Scans kind _ (Moves-refl s)

module _ {next : TokenKind → Tokenizer → Scanned} (h : (k : TokenKind) → Scanner (next k)) where
  signed_suffix-Scanner : Scanner (signed_suffix next)
  unfolding signed_suffix
  signed_suffix-Scanner = on_match-Scanner _ (on_match-Scanner _ (h _) (h _)) (
      on_match-Scanner _ (h _)
        (on_both-Scanner _ _ (h _) (on_both-Scanner _ _ (h _) (token-Scans _ _))))

  unsigned_suffix-Scanner : Scanner (unsigned_suffix next)
  unfolding unsigned_suffix
  unsigned_suffix-Scanner = on_both-Scanner _ _ (h _) (
      on_match-Scanner _ (h _)
        (on_both-Scanner _ _ (h _) (on_both-Scanner _ _ (h _) (token-Scans _ _))))

  float_suffix-Scanner : Scanner (float_suffix next)
  unfolding float_suffix
  float_suffix-Scanner = on_both-Scanner _ _ (h _) (on_both-Scanner _ _ (h _) (token-Scans _ _))

no_suffix-Scanner : (end : ℕ) (kind : TokenKind) → Scanner (no_suffix end kind)
unfolding no_suffix
no_suffix-Scanner end kind s =
    if-Scans (is_alpha (peek s)) (token-Scans _ _ s) (number_token-Scanner end kind s)

after_signed-Scanner : (end : ℕ) (kind : TokenKind) → Scanner (after_signed end kind)
unfolding after_signed
after_signed-Scanner end kind =
    on_match-Scanner _ (unsigned_suffix-Scanner (number_token-Scanner end)) (
      on_match-Scanner _ (float_suffix-Scanner (number_token-Scanner end))
        (no_suffix-Scanner end kind))

after_digits-Scans : (r : Tokenizer × TokenKind) → Scans r.0 (after_digits r)
unfolding after_digits
after_digits-Scans (s, kind) =
    on_match-Scanner _ (signed_suffix-Scanner (after_signed-Scanner s.current_position))
      (after_signed-Scanner s.current_position kind) s

pub consume_number-Scanner : Scanner consume_number
unfolding consume_number
consume_number-Scanner s =
    Scans-after (scan_digits-Arrives s).moves (after_digits-Scans (scan_digits s))

radix_token-Scans :
    {s t : Tokenizer} (message : String) (value : Option ℕ)
    → Moves s t
    → Scans s (radix_token message t value)
unfolding radix_token
radix_token-Scans message (some v) m = build_token-Scans _ _ m
radix_token-Scans message none m = build_token-Scans _ _ m

consume_radix-Scanner :
    (is_base_digit : ℕ → Bool) (to_decimal : Bytes → Option ℕ) (message : String)
    → Scanner (consume_radix is_base_digit to_decimal message)
unfolding consume_radix
consume_radix-Scanner is_base_digit to_decimal message s =
    let m = advance_while-Moves (λ c. is_base_digit c || is_underscore c) (remaining s) s in
    if-Scans _ (radix_token-Scans message _ m) (build_token-Scans _ _ m)

pub consume_hex_number-Scanner : Scanner consume_hex_number
unfolding consume_hex_number
consume_hex_number-Scanner =
    consume_radix-Scanner is_hex_digit hex_to_decimal "Hex integer literal is too large"

pub consume_binary_number-Scanner : Scanner consume_binary_number
unfolding consume_binary_number
consume_binary_number-Scanner =
    consume_radix-Scanner is_binary_digit binary_to_decimal "binary integer literal is too large"

pub consume_octal_number-Scanner : Scanner consume_octal_number
unfolding consume_octal_number
consume_octal_number-Scanner =
    consume_radix-Scanner is_octal_digit octal_to_decimal "octal integer literal is too large"
