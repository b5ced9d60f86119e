-- ===== src/Tokenizer/Skips.antt =====
-- White space and comments only move forward and count lines (src/amun_tokenizer.cpp).
use amun.Prelude.{
  ℕ, suc, zero, ◌≤◌, ◌<◌, ◌≡◌, Bool, true, false, arith, ◌==◌, ◌&&◌, if◌then◌else◌, Option, some,
  none,
}
use amun.Tokenizer.{Tokenizer, is_source_available, peek, advance, remaining}
use amun.Tokenizer.Moves.{Moves, advance-Moves, match-Moves}
use amun.Tokenizer.Blank.{
  skip_line_loop, skip_single_line_comment, count_newline, skip_multi_loop,
  skip_multi_lines_comment, skip_comment, skip_step, skip_newline, is_space, opens_comment,
  skip_loop, skip_whitespaces,
}

pub record Skips (s t : Tokenizer) : Type 0 where
  pub same_source : t.source_code ≡ s.source_code
  pub same_file : t.source_file_id ≡ s.source_file_id
  pub same_length : t.source_code_length ≡ s.source_code_length
  pub later_line : s.line_number ≤ t.line_number
  pub forward : s.current_position ≤ t.current_position
  pub bounded :
      s.current_position ≤ s.source_code_length → t.current_position ≤ s.source_code_length

Skips-refl : (s : Tokenizer) → Skips s s
Skips-refl s = ground arith

Skips-trans : {s t u : Tokenizer} → Skips s t → Skips t u → Skips s u
Skips-trans a b = record {
  same_source = cc (a.same_source, b.same_source);
  same_file = omega arith;
  same_length = omega arith;
  later_line = omega arith;
  forward = omega arith;
  bounded = λ h. omega (arith, b.bounded, a.bounded h);
}

Moves-Skips : {s t : Tokenizer} → Moves s t → Skips s t
Moves-Skips m = record {
  same_source = m.same_source;
  same_file = m.same_file;
  same_length = m.same_length;
  later_line = omega arith;
  forward = m.forward;
  bounded = m.bounded;
}

advance-Skips : (s : Tokenizer) → Skips s (advance s).0
advance-Skips s = Moves-Skips (advance-Moves s)

if-Skips : (b : Bool) {s x y : Tokenizer} → Skips s x → Skips s y → Skips s (if b then x else y)
if-Skips true h k = h
if-Skips false h k = k

count_newline-Skips : (s : Tokenizer) → Skips s (count_newline s)
unfolding count_newline
count_newline-Skips s = ground arith

skip_line_loop-Skips : (fuel : ℕ) (s : Tokenizer) → Skips s (skip_line_loop fuel s)
unfolding skip_line_loop
skip_line_loop-Skips zero s = Skips-refl s
skip_line_loop-Skips (suc fuel) s =
    if-Skips _ (Skips-trans (advance-Skips s) (skip_line_loop-Skips fuel _)) (Skips-refl s)

skip_multi_loop-Skips : (fuel : ℕ) (s : Tokenizer) → Skips s (skip_multi_loop fuel s)
unfolding skip_multi_loop
skip_multi_loop-Skips zero s = Skips-refl s
skip_multi_loop-Skips (suc fuel) s =
    if-Skips _
      (Skips-trans (advance-Skips s)
        (Skips-trans (count_newline-Skips _) (skip_multi_loop-Skips fuel _)))
      (Skips-refl s)

skip_multi_lines_comment-Skips : (s : Tokenizer) → Skips s (skip_multi_lines_comment s)
unfolding skip_multi_lines_comment
skip_multi_lines_comment-Skips s =
    Skips-trans (skip_multi_loop-Skips (remaining s) s)
      (Skips-trans (advance-Skips _) (Skips-trans (advance-Skips _) (count_newline-Skips _)))

skip_single_line_comment-Skips : (s : Tokenizer) → Skips s (skip_single_line_comment s)
unfolding skip_single_line_comment
skip_single_line_comment-Skips s = skip_line_loop-Skips (remaining s) s

skip_comment-Skips : (s : Tokenizer) → Skips (advance s).0 (skip_comment s)
unfolding skip_comment
skip_comment-Skips s =
    let single = Moves-Skips (match-Moves b'/' (advance s).0) in
    let multi = Skips-trans single (Moves-Skips (match-Moves b'*' _)) in
    if-Skips _ (Skips-trans single (skip_single_line_comment-Skips _))
      (if-Skips _ (Skips-trans multi (skip_multi_lines_comment-Skips _)) multi)

advance_past :
    (s : Tokenizer)
    → is_source_available s ≡ true
    → s.current_position < (advance s).0.current_position
unfolding advance
advance_past s h = ground arith

-- A round of `skip_whitespaces` returns, or moves past a byte if there is one.
data Round (s : Tokenizer) : Option Tokenizer → Type 0 where
  stops : Round s none
  goes :
      {t : Tokenizer}
      → Skips s t
      → (is_source_available s ≡ true → s.current_position < t.current_position)
      → Round s (some t)

if-Round :
    (b : Bool) {s : Tokenizer} {x y : Option Tokenizer}
    → Round s x
    → Round s y
    → Round s (if b then x else y)
if-Round true h k = h
if-Round false h k = k

skip_newline-Skips : (s : Tokenizer) → Skips s (skip_newline s)
unfolding skip_newline advance is_source_available
skip_newline-Skips s = ground arith

skip_newline_past :
    (s : Tokenizer)
    → is_source_available s ≡ true
    → s.current_position < (skip_newline s).current_position
unfolding skip_newline advance is_source_available
skip_newline_past s h = ground arith

skip_step-Round : (s : Tokenizer) → Round s (skip_step s)
unfolding skip_step
skip_step-Round s =
    let comment = skip_comment-Skips s in
    if-Round (is_space (peek s)) (goes (advance-Skips s) (advance_past s)) (
      if-Round (peek s == b'\n') (goes (skip_newline-Skips s) (skip_newline_past s)) (
        if-Round (peek s == b'/' && opens_comment s)
          (goes (Skips-trans (advance-Skips s) comment)
            (λ h. omega (arith, advance_past s h, comment.forward)))
          stops))

skip_loop-Skips : (fuel : ℕ) (s : Tokenizer) → Skips s (skip_loop fuel s)
unfolding skip_loop
skip_loop-Skips zero s = Skips-refl s
skip_loop-Skips (suc fuel) s =
    if-Skips (is_source_available s) (go (skip_loop-Skips fuel) (skip_step s) (skip_step-Round s))
      (Skips-refl s)
  where
    go :
        ((t : Tokenizer) → Skips t (skip_loop fuel t))
        → (o : Option Tokenizer) → Round s o
        → Skips s (elim o [ some t ↦ skip_loop fuel t | none ↦ s ])
    go ih none r = Skips-refl s
    go ih (some t) (goes k h) = Skips-trans k (ih t)

pub skip_whitespaces-Skips : (s : Tokenizer) → Skips s (skip_whitespaces s)
unfolding skip_whitespaces
skip_whitespaces-Skips s = skip_loop-Skips (remaining s) s
