-- ===== src/Tokenizer/Number.antt =====
-- src/amun_tokenizer.cpp: the literals of numbers.
use amun.Prelude.{String, ℕ, ◌+◌, ◌-◌, Bool, ◌&&◌, ◌||◌, ◌==◌, if◌then◌else◌, [], ◌∷◌, take, drop}
use amun.Prelude.Text.{Bytes, codes}
use amun.Token.{
  TokenKind, token_int, token_int1, token_int8, token_int16, token_int32, token_int64, token_uint8,
  token_uint16, token_uint32, token_uint64, token_float, token_float32, token_float64,
  token_invalid,
}
use amun.Tokenizer.{
  Tokenizer, peek, peek_next, advance, advance_while, remaining, build_token, Scanned, on_match,
  on_both,
}
use amun.Tokenizer.Chars.{is_digit, is_alpha, is_underscore}

-- `source_code.substr(from, len)`
abbrev pub substr : Tokenizer → ℕ → ℕ → Bytes
substr s from len = take len (drop from s.source_code)

-- `std::remove` of '_' with `erase`.
unfoldable pub remove_underscores : Bytes → Bytes
remove_underscores [] = []
remove_underscores (c ∷ cs) = if c == b'_' then remove_underscores cs else c ∷ remove_underscores cs

abbrev pub digit_or_underscore : ℕ → Bool
digit_or_underscore c = is_digit c || is_underscore c

abbrev pub digits : Tokenizer → Tokenizer
digits s = (advance_while digit_or_underscore (remaining s) s).0

abbrev pub invalid : String → Tokenizer → Scanned
invalid message s = build_token token_invalid (codes message) s

-- The digits, with a fraction if a digit follows the point.
unfoldable pub scan_digits : Tokenizer → Tokenizer × TokenKind
scan_digits s =
    let s₁ = digits s in
    if peek s₁ == b'.' && is_digit (peek_next s₁)
    then (digits (advance s₁).0, token_float)
    else (s₁, token_int)

-- The branch after `match('i')`: `next` goes on with the kind, unless the function returns early.
unfoldable pub signed_suffix : (TokenKind → Tokenizer → Scanned) → Tokenizer → Scanned
signed_suffix next = on_match b'1' (on_match b'6' (next token_int16) (next token_int1)) (
    on_match b'8' (next token_int8) (
      on_both b'3' b'2' (next token_int32) (
        on_both b'6' b'4' (next token_int64)
          (invalid "invalid width for singed integer literal, expect 8, 16, 32 or 64"))))

-- The branch after `match('u')`.
unfoldable pub unsigned_suffix : (TokenKind → Tokenizer → Scanned) → Tokenizer → Scanned
unsigned_suffix next = on_both b'1' b'6' (next token_uint16) (
    on_match b'8' (next token_uint8) (
      on_both b'3' b'2' (next token_uint32) (
        on_both b'6' b'4' (next token_uint64)
          (invalid "invalid width for unsinged integer literal, expect 8, 16, 32 or 64"))))

-- The branch after `match('f')`.
unfoldable pub float_suffix : (TokenKind → Tokenizer → Scanned) → Tokenizer → Scanned
float_suffix next = on_both b'3' b'2' (next token_float32) (
    on_both b'6' b'4' (next token_float64)
      (invalid "invalid width for floating point literal, expect 32 or 64"))

-- The end of `consume_number`: the literal runs to where the digits ended.
unfoldable pub number_token : ℕ → TokenKind → Tokenizer → Scanned
number_token number_end_position kind s =
    build_token kind
      (remove_underscores
        (substr s (s.start_position - 1) (number_end_position - s.start_position + 1)))
      s

-- `else if (is_alpha(peek()))`, and the end.
unfoldable pub no_suffix : ℕ → TokenKind → Tokenizer → Scanned
no_suffix end kind s =
    if is_alpha (peek s)
    then invalid "invalid suffix for number literal, expect i, u or f" s
    else number_token end kind s

-- From `if (match('u'))` on.
unfoldable pub after_signed : ℕ → TokenKind → Tokenizer → Scanned
after_signed end kind =
    on_match b'u' (unsigned_suffix (number_token end))
      (on_match b'f' (float_suffix (number_token end)) (no_suffix end kind))

unfoldable pub after_digits : Tokenizer × TokenKind → Scanned
after_digits (s, kind) =
    let end = s.current_position in
    on_match b'i' (signed_suffix (after_signed end)) (after_signed end kind) s

unfoldable pub consume_number : Tokenizer → Scanned
consume_number s = after_digits (scan_digits s)
