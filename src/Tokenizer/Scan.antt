-- ===== src/Tokenizer/Scan.antt =====
-- src/amun_tokenizer.cpp: `scan_next_token`, its switch, and `scan_all_tokens`.
use amun.Prelude.{
  length, ℕ, suc, zero, ◌+◌, ◌||◌, ◌==◌, if◌then◌else◌, List, [], ◌∷◌, Option, none, some,
}
use amun.Prelude.Text.{Bytes, codes}
use amun.Token.{TokenKind, Token}
use amun.Token.{
  token_open_paren, token_close_paren, token_open_bracket, token_close_bracket, token_open_brace,
  token_close_brace, token_comma, token_semicolon, token_not, token_at, token_dot, token_dot_dot,
  token_colon, token_colon_colon, token_equal, token_equal_equal, token_bang, token_bang_equal,
  token_star, token_star_equal, token_slash, token_slash_equal, token_percent, token_parcent_equal,
  token_xor, token_xor_equal, token_plus, token_plus_equal, token_plus_plus, token_minus,
  token_minus_equal, token_undefined, token_minus_minus, token_right_arrow, token_greater,
  token_greater_equal, token_right_shift_equal, token_smaller, token_smaller_equal,
  token_left_shift, token_left_shift_equal, token_or, token_or_equal, token_or_or, token_and,
  token_and_equal, token_and_and, token_end_of_file, token_invalid,
}
use amun.Tokenizer.{
  Tokenizer, new, is_source_available, advance, match_two, build_token, branch, on_match, Scanned,
}
use amun.Tokenizer.Chars.{is_digit, is_alpha}
use amun.Tokenizer.Number.{consume_number}
use amun.Tokenizer.Radix.{consume_hex_number, consume_binary_number, consume_octal_number}
use amun.Tokenizer.Text.{consume_symbol, consume_string, consume_character}
use amun.Tokenizer.Blank.{skip_whitespaces}

-- "One character token".
unfoldable pub one_character : ℕ → Option TokenKind
one_character c =
    if c == b'('
    then some token_open_paren
    else if c == b')'
    then some token_close_paren
    else if c == b'['
    then some token_open_bracket
    else if c == b']'
    then some token_close_bracket
    else if c == b'{'
    then some token_open_brace
    else if c == b'}'
    then some token_close_brace
    else if c == b','
    then some token_comma
    else if c == b';'
    then some token_semicolon
    else if c == b'~'
    then some token_not
    else if c == b'@'
    then some token_at
    else none

-- "One or Two character token": what may follow, the kind with it, and the kind without it.
unfoldable pub two_characters : ℕ → Option (ℕ × TokenKind × TokenKind)
two_characters c =
    if c == b'.'
    then some (b'.', token_dot_dot, token_dot)
    else if c == b':'
    then some (b':', token_colon_colon, token_colon)
    else if c == b'='
    then some (b'=', token_equal_equal, token_equal)
    else if c == b'!'
    then some (b'=', token_bang_equal, token_bang)
    else if c == b'*'
    then some (b'=', token_star_equal, token_star)
    else if c == b'/'
    then some (b'=', token_slash_equal, token_slash)
    else if c == b'%'
    then some (b'=', token_parcent_equal, token_percent)
    else if c == b'^'
    then some (b'=', token_xor_equal, token_xor)
    else none

-- The cases of `+`, `|` and `&`: `=` first, then the character once more.
unfoldable pub assign_or_twice : ℕ → Option (TokenKind × TokenKind × TokenKind)
assign_or_twice c =
    if c == b'+'
    then some (token_plus_equal, token_plus_plus, token_plus)
    else if c == b'|'
    then some (token_or_equal, token_or_or, token_or)
    else if c == b'&'
    then some (token_and_equal, token_and_and, token_and)
    else none

abbrev kind_token : TokenKind → Tokenizer → Scanned
kind_token kind s = build_token kind [] s

unfoldable pub scan_minus : Tokenizer → Scanned
scan_minus = on_match b'=' (kind_token token_minus_equal) (
    on_match b'-' (on_match b'-' (kind_token token_undefined) (kind_token token_minus_minus))
      (on_match b'>' (kind_token token_right_arrow) (kind_token token_minus)))

-- `if (match('>', '='))` of the case of `>`.
unfoldable pub scan_shift : Tokenizer → Scanned
scan_shift s =
    branch (kind_token token_right_shift_equal) (kind_token token_greater) (match_two b'>' b'=' s)

unfoldable pub scan_greater : Tokenizer → Scanned
scan_greater = on_match b'=' (kind_token token_greater_equal) scan_shift

unfoldable pub scan_smaller : Tokenizer → Scanned
scan_smaller = on_match b'=' (kind_token token_smaller_equal) (
    on_match b'<' (on_match b'=' (kind_token token_left_shift_equal) (kind_token token_left_shift))
      (kind_token token_smaller))

unfoldable pub scan_zero : Tokenizer → Scanned
scan_zero =
    on_match b'x' consume_hex_number
      (on_match b'b' consume_binary_number (on_match b'o' consume_octal_number consume_number))

-- The other cases of the switch.
unfoldable pub scan_other : ℕ → Tokenizer → Scanned
scan_other c s =
    if c == b'-'
    then scan_minus s
    else if c == b'>'
    then scan_greater s
    else if c == b'<'
    then scan_smaller s
    else if is_alpha c || c == b'_'
    then consume_symbol s
    else if c == b'"'
    then consume_string s
    else if c == b'\''
    then consume_character s
    else if c == b'0'
    then scan_zero s
    else if is_digit c
    then consume_number s
    else if c == 0
    then kind_token token_end_of_file s
    else build_token token_invalid (codes "unexpected character") s

unfoldable pub switch_assign : ℕ → Option (TokenKind × TokenKind × TokenKind) → Tokenizer → Scanned
switch_assign c (some (assign, twice, one)) =
    on_match b'=' (kind_token assign) (on_match c (kind_token twice) (kind_token one))
switch_assign c none = scan_other c

unfoldable pub switch_two : ℕ → Option (ℕ × TokenKind × TokenKind) → Tokenizer → Scanned
switch_two c (some (next, both, one)) = on_match next (kind_token both) (kind_token one)
switch_two c none = switch_assign c (assign_or_twice c)

unfoldable pub switch_one : ℕ → Option TokenKind → Tokenizer → Scanned
switch_one c (some kind) = kind_token kind
switch_one c none = switch_two c (two_characters c)

-- `switch (c)`
unfoldable pub scan_switch : ℕ → Tokenizer → Scanned
scan_switch c = switch_one c (one_character c)

-- What stands before the switch: the start of the token, and the state behind its first character.
unfoldable pub begin_token : Tokenizer → Tokenizer × ℕ
begin_token s =
    let s₁ = record s { start_position = s.current_position; column_start = s.column_current } in
    let (s₂, c) = advance s₁ in
    (
      record s₂ {
        start_position = s₂.start_position + 1;
        current_position = s₂.start_position + 1;
        column_start = s₂.column_start + 1;
        column_current = s₂.column_start + 1;
      },
      c,
    )

unfoldable pub scan_next_token : Tokenizer → Scanned
scan_next_token s = let (t, c) = begin_token (skip_whitespaces s) in scan_switch c t

-- `tokens.push_back(token)` in front of what the later rounds give.
abbrev pub prepend : Token → Option (List Token) → Option (List Token)
prepend token none = none
prepend token (some tokens) = some (token ∷ tokens)

-- The loop of `scan_all_tokens` on fuel; `none` means that the fuel ran out.
unfoldable pub scan_loop : ℕ → Tokenizer → Option (List Token)
scan_loop zero s = none
scan_loop (suc fuel) s =
    let (t, token) = scan_next_token s in
    let rest = prepend token (scan_loop fuel t) in
    if is_source_available s then rest else some ((build_token token_end_of_file [] s).1 ∷ [])

-- Each round reads a byte at least, so a round for each byte and the last test are enough.
unfoldable pub scan_all_tokens : ℕ → Bytes → Option (List Token)
scan_all_tokens source_file_id source = scan_loop (suc (length source)) (new source_file_id source)
