-- ===== src/Tokenizer/Blank/Leading.antt =====
-- `skip_whitespaces` (src/amun_tokenizer.cpp) on a text that starts with white space and comments: it
-- stops at the token behind them, and the lines that it counts.
use amun.Prelude.{
  ℕ, suc, zero, ◌+◌, ◌≤◌, ◌<◌, ◌≡◌, Bool, true, not, ◌==◌, List, [], ◌∷◌, ◌++◌, length,
  length-append, all, drop, arith, Option, some,
}
use amun.Prelude.Text.{Bytes}
use amun.Tokenizer.{Tokenizer, step, is_source_available, remaining}
use amun.Tokenizer.View.{
  At, peek-cons, peek_next-second, advance-cons, step-At, match-starts, is_source_available-cons,
  is_source_available-nil,
}
use amun.Tokenizer.View.Spans.{remaining-length}
use amun.Tokenizer.Begun.{is_solid, skip_step-solid}
use amun.Tokenizer.Blank.{
  is_space, skip_single_line_comment, skip_multi_lines_comment, skip_comment, skip_newline,
  skip_step, skip_loop, skip_whitespaces,
}
use amun.Tokenizer.Blank.Comments.{
  Skipped, newline_at, newlines, ends_line, no_close, close, count_newline-Skipped,
  skip_newline-Skipped, skip_line_loop-Skipped, skip_multi_loop-Skipped,
}

-- White space, a comment up to the end of the line, and a comment between its marks.
pub data Blank : Type 0 where
  space : ℕ → Blank
  newline : Blank
  line_comment : Bytes → Blank
  block_comment : Bytes → Blank

abbrev pub written : Blank → Bytes → Bytes
written (space c) rest = c ∷ rest
written newline rest = b'\n' ∷ rest
written (line_comment t) rest = b'/' ∷ b'/' ∷ (t ++ rest)
written (block_comment t) rest = b'/' ∷ b'*' ∷ (t ++ close rest)

abbrev pub IsBlank : Blank → Bytes → Type 0
IsBlank (space c) rest = is_space c ≡ true
IsBlank newline rest = Unit {0}
IsBlank (line_comment t) rest = (all (λ c. not (c == b'\n')) t ≡ true) × (ends_line rest ≡ true)
IsBlank (block_comment t) rest = no_close t ≡ true

-- The lines that the code counts: in a comment between marks a newline directly behind the opening is
-- left out, and one directly behind the closing is counted as well.
abbrev pub counted_lines : Blank → Bytes → ℕ
counted_lines (space c) rest = 0
counted_lines newline rest = 1
counted_lines (line_comment t) rest = 0
counted_lines (block_comment t) rest = newlines (drop 1 t) + newline_at rest

skip_multi_lines_comment-Skipped :
    {s : Tokenizer} (t rest : Bytes)
    → no_close t ≡ true
    → At s (t ++ close rest)
    → Skipped s (newlines (drop 1 t) + newline_at rest) rest (skip_multi_lines_comment s)
unfolding skip_multi_lines_comment
skip_multi_lines_comment-Skipped {s} t rest a h =
    let inside =
      skip_multi_loop-Skipped (remaining s) t rest a
        (omega (arith, remaining-length h, length-append t (close rest))) h in
    let counts = count_newline-Skipped rest (step-At (step-At inside.left)) in
    rw (advance-cons inside.left) (
      rw (advance-cons (step-At inside.left))
        (record { left = counts.left; counted = omega (arith, counts.counted, inside.counted) }))

skip_comment-line :
    {s : Tokenizer} (t rest : Bytes)
    → all (λ c. not (c == b'\n')) t ≡ true
    → ends_line rest ≡ true
    → At s (b'/' ∷ b'/' ∷ (t ++ rest))
    → Skipped s 0 rest (skip_comment s)
unfolding skip_comment skip_single_line_comment
skip_comment-line {s} t rest a e h =
    let body = step-At (step-At h) in
    let more =
      skip_line_loop-Skipped (remaining (step 1 (step 1 s))) t rest a e
        (omega (arith, remaining-length body, length-append t rest)) body in
    rw (advance-cons h)
      (rw (match-starts b'/' _ (step-At h)) (record { left = more.left; counted = more.counted }))

skip_comment-block :
    {s : Tokenizer} (t rest : Bytes)
    → no_close t ≡ true
    → At s (b'/' ∷ b'*' ∷ (t ++ close rest))
    → Skipped s (newlines (drop 1 t) + newline_at rest) rest (skip_comment s)
unfolding skip_comment
skip_comment-block {s} t rest a h =
    let more = skip_multi_lines_comment-Skipped t rest a (step-At (step-At h)) in
    rw (advance-cons h) (
      rw (match-starts b'/' _ (step-At h)) (
        rw (match-starts b'*' _ (step-At h)) (record { left = more.left; counted = more.counted })))

-- One round takes one blank.
record Round (s : Tokenizer) (lines : ℕ) (rest : Bytes) (r : Option Tokenizer) : Type 0 where
  next : Tokenizer
  taken : r ≡ some next
  skipped : Skipped s lines rest next

skip_step-Round :
    (b : Blank) {s : Tokenizer} (rest : Bytes)
    → IsBlank b rest
    → At s (written b rest)
    → Round s (counted_lines b rest) rest (skip_step s)
unfolding skip_step
skip_step-Round (space c) {s} rest i h = record {
  next = step 1 s;
  taken = rw (peek-cons h, i, advance-cons h);
  skipped = record { left = step-At h; counted = omega arith };
}
skip_step-Round newline {s} rest i h = record {
  next = skip_newline s;
  taken = rw (peek-cons h);
  skipped = skip_newline-Skipped rest h;
}
skip_step-Round (line_comment t) {s} rest i h = record {
  next = skip_comment s;
  taken = rw (peek-cons h, peek_next-second (written (line_comment t) rest) h);
  skipped = skip_comment-line t rest i.0 i.1 h;
}
skip_step-Round (block_comment t) {s} rest i h = record {
  next = skip_comment s;
  taken = rw (peek-cons h, peek_next-second (written (block_comment t) rest) h);
  skipped = skip_comment-block t rest i h;
}

abbrev pub written_all : List Blank → Bytes → Bytes
written_all [] rest = rest
written_all (b ∷ bs) rest = written b (written_all bs rest)

abbrev pub AllBlank : List Blank → Bytes → Type 0
AllBlank [] rest = Unit {0}
AllBlank (b ∷ bs) rest = IsBlank b (written_all bs rest) × AllBlank bs rest

abbrev pub all_lines : List Blank → Bytes → ℕ
all_lines [] rest = 0
all_lines (b ∷ bs) rest = counted_lines b (written_all bs rest) + all_lines bs rest

-- The end of the text, or the start of a token.
abbrev pub stops_at : Bytes → Bool
stops_at [] = true
stops_at (c ∷ cs) = is_solid c cs

pub written-cons :
    (b : Blank) (rest : Bytes) {s : Tokenizer}
    → At s (written b rest)
    → is_source_available s ≡ true
written-cons (space c) rest h = is_source_available-cons h
written-cons newline rest h = is_source_available-cons h
written-cons (line_comment t) rest h = is_source_available-cons h
written-cons (block_comment t) rest h = is_source_available-cons h

skip_loop-Skipped :
    (fuel : ℕ) (bs : List Blank) {s : Tokenizer} (rest : Bytes)
    → AllBlank bs rest
    → stops_at rest ≡ true
    → length bs ≤ fuel
    → At s (written_all bs rest)
    → Skipped s (all_lines bs rest) rest (skip_loop fuel s)
unfolding skip_loop
skip_loop-Skipped zero [] rest a e l h = record { left = h; counted = omega arith }
skip_loop-Skipped zero (b ∷ bs) rest a e l h = absurd (omega arith)
skip_loop-Skipped (suc fuel) [] [] a e l h =
    rw (is_source_available-nil h) (record { left = h; counted = omega arith })
skip_loop-Skipped (suc fuel) [] (c ∷ cs) a e l h =
    rw (is_source_available-cons h, skip_step-solid h e)
      (record { left = h; counted = omega arith })
skip_loop-Skipped (suc fuel) (b ∷ bs) {s} rest a e l h =
    let round = skip_step-Round b (written_all bs rest) a.0 h in
    let more =
      skip_loop-Skipped fuel bs {s = round.next} rest a.1 e (omega arith) round.skipped.left in
    rw (written-cons b (written_all bs rest) h, round.taken)
      (record { left = more.left; counted = omega (arith, more.counted, round.skipped.counted) })

pub length-written : (b : Blank) (rest : Bytes) → length rest < length (written b rest)
length-written (space c) rest = omega arith
length-written newline rest = omega arith
length-written (line_comment t) rest = omega (arith, length-append t rest)
length-written (block_comment t) rest = omega (arith, length-append t (close rest))

length-written_all : (bs : List Blank) (rest : Bytes) → length bs ≤ length (written_all bs rest)
length-written_all [] rest = omega arith
length-written_all (b ∷ bs) rest =
    omega (arith, length-written b (written_all bs rest), length-written_all bs rest)

-- In front of a token or of the end of the text, white space and comments in any number and order are
-- skipped, and nothing else; a comment of a line ends before its newline, and no comment between marks
-- holds its closing mark. The line number grows by the newlines outside comments and, for each comment
-- between marks, by its newlines but one directly behind the opening, and by one more if a newline
-- directly follows the closing.
pub skip_whitespaces-Skipped :
    (bs : List Blank) (s : Tokenizer) (rest : Bytes)
    → AllBlank bs rest
    → stops_at rest ≡ true
    → At s (written_all bs rest)
    → Skipped s (all_lines bs rest) rest (skip_whitespaces s)
unfolding skip_whitespaces
skip_whitespaces-Skipped bs s rest a e h =
    skip_loop-Skipped (remaining s) bs rest a e
      (omega (arith, remaining-length h, length-written_all bs rest)) h
