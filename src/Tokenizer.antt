-- ===== src/Tokenizer.antt =====
-- src/amun_tokenizer.cpp: the state of the tokenizer and its reading primitives. A `char` is a byte
-- below 256: the C++ value -1 is the byte 255, which is what the code compares with -1. Counters are
-- numbers without a bound: a source shorter than 2^31 bytes does not wrap an `int`.
pub mod Chars
pub mod Keyword
pub mod Number
pub mod Radix
pub mod Text
pub mod Blank
pub mod Scan
pub mod Moves
pub mod Progress
pub mod Skips
pub mod Total
pub mod View
pub mod Begun
pub mod Symbols
pub mod Plans
pub mod Operators
pub mod Words
pub mod Strings
pub mod Characters
pub mod Suffixes
pub mod Spelling
pub mod RoundTrip
mod Tests
use amun.Prelude.{
  ℕ, suc, zero, ◌+◌, ◌-◌, Bool, true, false, not, ◌&&◌, ◌||◌, ◌==◌, ltb, if◌then◌else◌, length,
  get_or, [], List,
}
use amun.Prelude.Text.{Bytes}
use amun.Token.{TokenKind, TokenSpan, Token}

pub record Tokenizer : Type 0 where
  pub source_code : Bytes
  pub source_file_id : ℕ
  pub source_code_length : ℕ
  pub start_position : ℕ
  pub current_position : ℕ
  pub line_number : ℕ
  pub column_start : ℕ
  pub column_current : ℕ

-- The constructor.
unfoldable pub new : ℕ → Bytes → Tokenizer
new source_file_id source = record {
  source_code = source;
  source_file_id = source_file_id;
  source_code_length = length source;
  start_position = 0;
  current_position = 0;
  line_number = 1;
  column_start = 0;
  column_current = 0;
}

unfoldable pub is_source_available : Tokenizer → Bool
is_source_available s = ltb s.current_position s.source_code_length

-- `source_code[current_position]`: the terminating zero at the end of the text.
unfoldable pub peek : Tokenizer → ℕ
peek s = get_or s.source_code s.current_position 0

unfoldable pub peek_next : Tokenizer → ℕ
peek_next s =
    if ltb (s.current_position + 1) s.source_code_length
    then get_or s.source_code (s.current_position + 1) 0
    else 0

-- `current_position += n; column_current += n`
abbrev pub step : ℕ → Tokenizer → Tokenizer
step n s = record s {
  current_position = s.current_position + n;
  column_current = s.column_current + n;
}

unfoldable pub advance : Tokenizer → Tokenizer × ℕ
advance s =
    if is_source_available s then (step 1 s, get_or s.source_code s.current_position 0) else (s, 0)

unfoldable pub match : ℕ → Tokenizer → Tokenizer × Bool
match current s =
    if not (is_source_available s) || not (current == peek s) then (s, false) else (step 1 s, true)

-- The overload `match(current, next)`.
unfoldable pub match_two : ℕ → ℕ → Tokenizer → Tokenizer × Bool
match_two current next s =
    if current == peek s && next == peek_next s then (step 2 s, true) else (s, false)

-- `while (test(peek())) { advance(); has_digits = true; }` on fuel; the flag is that of the loop.
unfoldable pub advance_while : (ℕ → Bool) → ℕ → Tokenizer → Tokenizer × Bool
advance_while test zero s = (s, false)
advance_while test (suc fuel) s =
    let rest = (advance_while test fuel (advance s).0).0 in
    if test (peek s) then (rest, true) else (s, false)

-- Rounds that suffice for a loop that advances in each.
abbrev pub remaining : Tokenizer → ℕ
remaining s = s.source_code_length - s.current_position

unfoldable pub build_token_span : Tokenizer → TokenSpan
build_token_span s = record {
  file_id = s.source_file_id;
  line_number = s.line_number;
  column_start = s.column_start;
  column_end = s.column_current;
}

-- `build_token` changes no state; a handler returns its state with the token.
unfoldable pub build_token : TokenKind → Bytes → Tokenizer → Tokenizer × Token
build_token kind literal s =
    (s, record { kind = kind; position = build_token_span s; literal = literal })

abbrev pub Scanned : Type 0
Scanned = Tokenizer × Token

abbrev pub branch {ℓ} : {A : Type ℓ} → (Tokenizer → A) → (Tokenizer → A) → Tokenizer × Bool → A
branch hit miss (s, true) = hit s
branch hit miss (s, false) = miss s

-- `if (match(c)) hit; else miss;`, each with the state that `match` leaves.
abbrev pub on_match {ℓ} : {A : Type ℓ} → ℕ → (Tokenizer → A) → (Tokenizer → A) → Tokenizer → A
on_match c hit miss s = branch hit miss (match c s)

-- `if (match(first) && match(second))`: the first stays consumed where the second fails.
abbrev pub on_both {ℓ} : {A : Type ℓ} → ℕ → ℕ → (Tokenizer → A) → (Tokenizer → A) → Tokenizer → A
on_both first second hit miss = on_match first (on_match second hit miss) miss
