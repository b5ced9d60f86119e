-- ===== src/Tokenizer/Blank.antt =====
-- src/amun_tokenizer.cpp: white space and comments.
pub mod Comments
pub mod Leading
use amun.Prelude.{ℕ, suc, zero, ◌+◌, Bool, not, ◌&&◌, ◌||◌, ◌==◌, if◌then◌else◌, Option, none, some}
use amun.Tokenizer.{Tokenizer, is_source_available, peek, peek_next, advance, match, remaining}

-- The loops run on fuel; each round advances.
unfoldable pub skip_line_loop : ℕ → Tokenizer → Tokenizer
skip_line_loop zero s = s
skip_line_loop (suc fuel) s =
    let rest = skip_line_loop fuel (advance s).0 in
    if is_source_available s && not (peek s == b'\n') then rest else s

unfoldable pub skip_single_line_comment : Tokenizer → Tokenizer
skip_single_line_comment s = skip_line_loop (remaining s) s

-- `if (peek() == '\n') { line_number++; column_current = 0; }`
unfoldable pub count_newline : Tokenizer → Tokenizer
count_newline s =
    if peek s == b'\n' then record s { line_number = s.line_number + 1; column_current = 0 } else s

unfoldable pub skip_multi_loop : ℕ → Tokenizer → Tokenizer
skip_multi_loop zero s = s
skip_multi_loop (suc fuel) s =
    let rest = skip_multi_loop fuel (count_newline (advance s).0) in
    if is_source_available s && (not (peek s == b'*') || not (peek_next s == b'/')) then rest else s

unfoldable pub skip_multi_lines_comment : Tokenizer → Tokenizer
skip_multi_lines_comment s = count_newline (advance (advance (skip_multi_loop (remaining s) s)).0).0

-- `case '/'` behind its guard.
unfoldable pub skip_comment : Tokenizer → Tokenizer
skip_comment s =
    let (s₁, single) = match b'/' (advance s).0 in
    let (s₂, multi) = match b'*' s₁ in
    if single
    then skip_single_line_comment s₁
    else if multi
    then skip_multi_lines_comment s₂
    else s₂

-- `case '\n'`
unfoldable pub skip_newline : Tokenizer → Tokenizer
skip_newline s = record (advance (record s { line_number = s.line_number + 1 })).0 {
  column_current = 0;
}

abbrev pub is_space : ℕ → Bool
is_space c = c == b' ' || c == b'\r' || c == b'\t'

-- The guard of `case '/'`.
abbrev pub opens_comment : Tokenizer → Bool
opens_comment s = peek_next s == b'/' || peek_next s == b'*'

-- One round of the loop; `none` is its return.
unfoldable pub skip_step : Tokenizer → Option Tokenizer
skip_step s =
    if is_space (peek s)
    then some (advance s).0
    else if peek s == b'\n'
    then some (skip_newline s)
    else if peek s == b'/' && opens_comment s
    then some (skip_comment s)
    else none

unfoldable pub skip_loop : ℕ → Tokenizer → Tokenizer
skip_loop zero s = s
skip_loop (suc fuel) s =
    if is_source_available s then elim (skip_step s) [ some t ↦ skip_loop fuel t | none ↦ s ] else s

unfoldable pub skip_whitespaces : Tokenizer → Tokenizer
skip_whitespaces s = skip_loop (remaining s) s
