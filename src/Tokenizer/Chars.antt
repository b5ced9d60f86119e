-- ===== src/Tokenizer/Chars.antt =====
-- src/amun_tokenizer.cpp: the classes of characters, and the conversions of digits. The tests agree
-- with those on a signed `char`: a byte from 128 on is in no class.
use amun.Prelude.{
  ℕ, ◌+◌, ◌-◌, ◌*◌, Bool, true, ◌&&◌, ◌||◌, ◌==◌, leb, if◌then◌else◌, [], ◌∷◌, Option, none, some,
}
use amun.Prelude.Text.{Bytes}

unfoldable pub is_digit : ℕ → Bool
is_digit c = leb c b'9' && leb b'0' c

unfoldable pub is_hex_digit : ℕ → Bool
unfolding is_digit
is_hex_digit c = is_digit c || (leb c b'F' && leb b'A' c) || (leb c b'f' && leb b'a' c)

unfoldable pub is_binary_digit : ℕ → Bool
is_binary_digit c = b'1' == c || b'0' == c

unfoldable pub is_octal_digit : ℕ → Bool
is_octal_digit c = leb c b'7' && leb b'0' c

unfoldable pub is_alpha : ℕ → Bool
is_alpha c = if leb c b'z' && leb b'a' c then true else leb c b'Z' && leb b'A' c

unfoldable pub is_alpha_num : ℕ → Bool
unfolding is_alpha is_digit
is_alpha_num c = is_alpha c || is_digit c

unfoldable pub is_underscore : ℕ → Bool
is_underscore c = c == b'_'

-- An `int8_t`, for a digit or a letter: the letters start at 0, as in the code. On another byte the
-- difference is cut off at 0; the code calls it on digits only.
unfoldable pub hex_to_int : ℕ → ℕ
hex_to_int c = if leb c b'9' then c - b'0' else if leb c b'F' then c - b'A' else c - b'a'

-- The digit value that `std::stol` gives a character.
unfoldable pub digit_value : ℕ → ℕ
digit_value c = if leb c b'9' then c - b'0' else if leb c b'F' then c - b'A' + 10 else c - b'a' + 10

abbrev pub int64_max : ℕ
int64_max = 9223372036854775807

unfoldable pub digits_value : ℕ → ℕ → Bytes → ℕ
unfolding digit_value
digits_value base acc [] = acc
digits_value base acc (c ∷ cs) = digits_value base (acc * base + digit_value c) cs

-- `std::stol(text, nullptr, base)` on a text of digits of that base, which has no white space, sign or
-- prefix. `none` is a throw: `invalid_argument` without a digit, `out_of_range` above the largest
-- `long` (64 bits).
unfoldable pub stol : ℕ → Bytes → Option ℕ
unfolding digits_value
stol base [] = none
stol base (c ∷ cs) =
    let value = digits_value base 0 (c ∷ cs) in if leb value int64_max then some value else none

-- The catch-all handler turns a throw into -1, here `none`.
abbrev pub hex_to_decimal : Bytes → Option ℕ
hex_to_decimal hex = stol 16 hex

abbrev pub binary_to_decimal : Bytes → Option ℕ
binary_to_decimal binary = stol 2 binary

abbrev pub octal_to_decimal : Bytes → Option ℕ
octal_to_decimal octal = stol 8 octal
