-- ===== src/Tokenizer/Radix.antt =====
-- src/amun_tokenizer.cpp: the literals with a base prefix.
pub mod Literals
use amun.Prelude.{ℕ, ◌+◌, ◌-◌, Bool, ◌||◌, if◌then◌else◌, String, Option, none, some}
use amun.Prelude.Text.{Bytes, codes}
use amun.Prelude.Decimal.{to_string}
use amun.Token.{Token, token_int, token_invalid}
use amun.Tokenizer.{Tokenizer, advance_while, remaining, build_token, Scanned}
use amun.Tokenizer.Chars.{
  is_hex_digit, is_binary_digit, is_octal_digit, is_underscore, hex_to_decimal, binary_to_decimal,
  octal_to_decimal,
}
use amun.Tokenizer.Number.{substr, remove_underscores}

-- Behind the conversion: `none` is the result -1.
unfoldable pub radix_token : String → Tokenizer → Option ℕ → Scanned
radix_token message s (some decimal_value) = build_token token_int (to_string decimal_value) s
radix_token message s none = build_token token_invalid (codes message) s

-- The body that the three functions share: the digits, the conversion and the message differ.
unfoldable pub consume_radix : (ℕ → Bool) → (Bytes → Option ℕ) → String → Tokenizer → Scanned
consume_radix is_base_digit to_decimal message s =
    let (t, has_digits) = advance_while (λ c. is_base_digit c || is_underscore c) (remaining s) s in
    let literal =
      remove_underscores
        (substr t (t.start_position + 1) (t.current_position - t.start_position - 1)) in
    if has_digits
    then radix_token message t (to_decimal literal)
    else build_token token_invalid (codes "Missing digits after the integer base prefix") t

unfoldable pub consume_hex_number : Tokenizer → Scanned
consume_hex_number = consume_radix is_hex_digit hex_to_decimal "Hex integer literal is too large"

unfoldable pub consume_binary_number : Tokenizer → Scanned
consume_binary_number =
    consume_radix is_binary_digit binary_to_decimal "binary integer literal is too large"

unfoldable pub consume_octal_number : Tokenizer → Scanned
consume_octal_number =
    consume_radix is_octal_digit octal_to_decimal "octal integer literal is too large"
