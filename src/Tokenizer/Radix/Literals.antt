-- ===== src/Tokenizer/Radix/Literals.antt =====
-- Hexadecimal, binary and octal literals (src/amun_tokenizer.cpp): which text they take, and the value
-- and the errors that they give.
use amun.Prelude.{
  ℕ, ◌+◌, ◌-◌, ◌≡◌, refl, ap, Bool, false, ◌||◌, if◌then◌else◌, String, [], ◌∷◌, length, take_while,
  drop_while, take-take_while, arith, Option, none, some,
}
use amun.Prelude.Text.{Bytes, codes}
use amun.Prelude.Decimal.{to_string}
use amun.Token.{TokenKind, token_int, token_invalid}
use amun.Tokenizer.{Tokenizer, build_token}
use amun.Tokenizer.View.{At, on_match-starts, step-At}
use amun.Tokenizer.View.Spans.{advance_while-take_while, step-At_many, not_nil}
use amun.Tokenizer.Begun.{Begun, Yields, build_token-Yields}
use amun.Tokenizer.Chars.{
  is_hex_digit, is_binary_digit, is_octal_digit, is_digit, is_underscore, is_alpha, hex_to_decimal,
  binary_to_decimal, octal_to_decimal,
}
use amun.Tokenizer.Number.{remove_underscores}
use amun.Tokenizer.Radix.{
  radix_token, consume_radix, consume_hex_number, consume_binary_number, consume_octal_number,
}
use amun.Tokenizer.Scan.{
  scan_switch, switch_one, switch_two, switch_assign, scan_other, scan_zero, one_character,
  two_characters, assign_or_twice,
}

pub data Radix : Type 0 where
  hex binary octal : Radix

abbrev pub letter : Radix → ℕ
letter hex = b'x'
letter binary = b'b'
letter octal = b'o'

abbrev pub radix_char : Radix → ℕ → Bool
radix_char hex c = is_hex_digit c || is_underscore c
radix_char binary c = is_binary_digit c || is_underscore c
radix_char octal c = is_octal_digit c || is_underscore c

abbrev pub value : Radix → Bytes → Option ℕ
value hex = hex_to_decimal
value binary = binary_to_decimal
value octal = octal_to_decimal

abbrev pub too_large : Radix → Bytes
too_large hex = codes "Hex integer literal is too large"
too_large binary = codes "binary integer literal is too large"
too_large octal = codes "octal integer literal is too large"

-- The kind and the literal for the text behind the prefix.
abbrev pub meaning : Bytes → Option ℕ → Bytes → TokenKind × Bytes
meaning message result [] = (token_invalid, codes "Missing digits after the integer base prefix")
meaning message (some n) (c ∷ cs) = (token_int, to_string n)
meaning message none (c ∷ cs) = (token_invalid, message)

radix-meaning :
    (message : String) (result : Option ℕ) (span : Bytes) {t : Tokenizer} {rest : Bytes}
    → At t rest
    → let m = meaning (codes message) result span in
      Yields m.0 m.1 rest (
        if not_nil span
        then radix_token message t result
        else build_token token_invalid (codes "Missing digits after the integer base prefix") t)
unfolding radix_token
radix-meaning message result [] h = build_token-Yields _ _ h
radix-meaning message (some n) (c ∷ cs) h = build_token-Yields _ _ h
radix-meaning message none (c ∷ cs) h = build_token-Yields _ _ h

-- The digits behind the two characters of the prefix, of which the first starts the token.
consume_radix-Yields :
    (test : ℕ → Bool) (to_decimal : Bytes → Option ℕ) (message : String) {s : Tokenizer}
    (rest : Bytes)
    → (test 0 || is_underscore 0) ≡ false
    → s.start_position + 1 ≡ s.current_position
    → At s rest
    → let span = take_while (λ c. test c || is_underscore c) rest in
      let m = meaning (codes message) (to_decimal (remove_underscores span)) span in
      Yields m.0 m.1
        (drop_while (λ c. test c || is_underscore c) rest)
        (consume_radix test to_decimal message s)
unfolding consume_radix
consume_radix-Yields test to_decimal message {s} rest z e h =
    let taken = λ (c : ℕ). test c || is_underscore c in
    let n = length (take_while taken rest) in
    let width : s.current_position + n - s.start_position - 1 ≡ n = omega arith in
    rw (advance_while-take_while taken rest h z, width, e, h.unread, take-take_while taken rest)
      (radix-meaning message _ (take_while taken rest) (step-At_many taken rest h))

scan_switch-zero_digit : (s : Tokenizer) → scan_switch b'0' s ≡ scan_zero s
unfolding scan_switch switch_one switch_two switch_assign scan_other one_character two_characters
    assign_or_twice is_alpha is_digit
scan_switch-zero_digit s = refl

-- Behind `0x`, `0b` and `0o` the literal takes all the digits of its base and underscores that follow.
-- Its token is an integer with the decimal digits of the value, or an error: one when neither a digit
-- nor an underscore follows, and one when there are only underscores or the value is above the largest
-- 64-bit integer.
pub radix_literal-Yields :
    (radix : Radix) (s : Tokenizer) (rest : Bytes)
    → Begun s b'0' (letter radix ∷ rest)
    → let span = take_while (radix_char radix) rest in
      let m = meaning (too_large radix) (value radix (remove_underscores span)) span in
      Yields m.0 m.1 (drop_while (radix_char radix) rest) (scan_switch b'0' s)
unfolding is_hex_digit is_binary_digit is_octal_digit is_underscore scan_zero consume_hex_number
    consume_binary_number consume_octal_number
radix_literal-Yields hex s rest b =
    rw (scan_switch-zero_digit s, on_match-starts b'x' _ _ (b'x' ∷ rest) b.left)
      (consume_radix-Yields is_hex_digit hex_to_decimal "Hex integer literal is too large" rest refl
        (ap (λ n. n + 1) b.same) (step-At b.left))
radix_literal-Yields binary s rest b =
    rw
      (
        scan_switch-zero_digit s,
        on_match-starts b'x' _ _ (b'b' ∷ rest) b.left,
        on_match-starts b'b' _ _ (b'b' ∷ rest) b.left,
      )
      (consume_radix-Yields is_binary_digit binary_to_decimal "binary integer literal is too large"
        rest refl (ap (λ n. n + 1) b.same) (step-At b.left))
radix_literal-Yields octal s rest b =
    rw
      (
        scan_switch-zero_digit s,
        on_match-starts b'x' _ _ (b'o' ∷ rest) b.left,
        on_match-starts b'b' _ _ (b'o' ∷ rest) b.left,
        on_match-starts b'o' _ _ (b'o' ∷ rest) b.left,
      )
      (consume_radix-Yields is_octal_digit octal_to_decimal "octal integer literal is too large"
        rest refl (ap (λ n. n + 1) b.same) (step-At b.left))
