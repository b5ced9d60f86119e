-- ===== src/Tokenizer/Text.antt =====
-- src/amun_tokenizer.cpp: symbols, strings and characters.
use amun.Prelude.{
  ℕ, suc, zero, ◌+◌, ◌-◌, ◌*◌, ◌%◌, Bool, not, ◌&&◌, ◌||◌, ◌==◌, if◌then◌else◌, [], ◌∷◌, ◌++◌,
  Option, none, some,
}
use amun.Prelude.Text.{Bytes, codes}
use amun.Token.{token_string, token_character, token_invalid}
use amun.Tokenizer.{
  Tokenizer, is_source_available, peek, advance, advance_while, remaining, build_token, Scanned,
}
use amun.Tokenizer.Chars.{is_digit, is_alpha_num, hex_to_int}
use amun.Tokenizer.Keyword.{resolve_keyword_token_kind}
use amun.Tokenizer.Number.{substr}

abbrev pub symbol_char : ℕ → Bool
symbol_char c = is_alpha_num c || c == b'_'

unfoldable pub consume_symbol : Tokenizer → Scanned
consume_symbol s =
    let t = (advance_while symbol_char (remaining s) s).0 in
    let len = t.current_position - t.start_position + 1 in
    let literal = substr t (t.start_position - 1) len in
    build_token (resolve_keyword_token_kind literal) literal t

-- The character of an escape that is one letter; `none` for any other.
unfoldable pub simple_escape : ℕ → Option ℕ
simple_escape escape =
    if escape == b'a'
    then some 7
    else if escape == b'b'
    then some 8
    else if escape == b'f'
    then some 12
    else if escape == b'n'
    then some 10
    else if escape == b'r'
    then some 13
    else if escape == b't'
    then some 9
    else if escape == b'v'
    then some 11
    else if escape == b'0'
    then some 0
    else if escape == b'\''
    then some b'\''
    else if escape == b'\\'
    then some b'\\'
    else if escape == b'"'
    then some b'"'
    else none

-- The `char` -1 as a byte.
abbrev pub minus_one : ℕ
minus_one = 255

-- `case 'x'`, from the `x` on.
unfoldable pub hex_escape : Tokenizer → Tokenizer × ℕ
hex_escape s =
    let (s₁, first_digit) = advance (advance s).0 in
    let (s₂, second_digit) = advance s₁ in
    if is_digit first_digit && is_digit second_digit
    then (s₂, (hex_to_int first_digit * 16 + hex_to_int second_digit) % 256)
    else (s₂, minus_one)

-- The switch behind a backslash, on the escape that `peek` shows.
unfoldable pub escape_switch : Tokenizer → ℕ → Option ℕ → Tokenizer × ℕ
escape_switch s escape (some c) = ((advance s).0, c)
escape_switch s escape none = if escape == b'x' then hex_escape s else (s, minus_one)

unfoldable pub consume_one_character : Tokenizer → Tokenizer × ℕ
consume_one_character s =
    let (t, c) = advance s in
    if c == b'\\' then escape_switch t (peek t) (simple_escape (peek t)) else (t, c)

-- The loop of `consume_string` on fuel, with the stream so far; `none` is the early return.
unfoldable pub string_loop : ℕ → Bytes → Tokenizer → Tokenizer × Option Bytes
string_loop zero stream s = (s, some stream)
string_loop (suc fuel) stream s =
    let (t, c) = consume_one_character s in
    let rest = string_loop fuel (stream ++ c ∷ []) t in
    if is_source_available s && not (peek s == b'"')
    then (if c == minus_one then (t, none) else rest)
    else (s, some stream)

-- Behind the loop.
unfoldable pub string_token : Tokenizer × Option Bytes → Scanned
string_token (s, none) = build_token token_invalid (codes "invalid character") s
string_token (s, some stream) =
    if not (is_source_available s)
    then build_token token_invalid (codes "unterminated double quote string") s
    else build_token token_string stream (advance s).0

unfoldable pub consume_string : Tokenizer → Scanned
consume_string s = string_token (string_loop (remaining s) [] s)

-- Behind the call of `consume_one_character`.
unfoldable pub character_token : Tokenizer × ℕ → Scanned
character_token (s, c) =
    if c == minus_one
    then build_token token_invalid (codes "invalid character") s
    else if c == b'\''
    then build_token token_invalid (codes "empty character literal") s
    else if not (peek s == b'\'')
    then build_token token_invalid (codes "unterminated single quote character") s
    else build_token token_character (c ∷ []) (advance s).0

unfoldable pub consume_character : Tokenizer → Scanned
consume_character s = character_token (consume_one_character s)
