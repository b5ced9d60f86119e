-- ===== src/Tokenizer/Blank/Comments.antt =====
-- `skip_whitespaces` (src/amun_tokenizer.cpp) on a text that starts with white space and comments: it
-- stops at the token behind them, and the lines that it counts.
use amun.Prelude.{
  ℕ, suc, zero, ◌+◌, ◌≤◌, ◌<◌, ◌≡◌, refl, Bool, true, false, not, ◌&&◌, ◌||◌, ◌==◌, if◌then◌else◌,
  [], ◌∷◌, ◌++◌, length, all, drop, arith, Bool-cases, inl, inr,
}
use amun.Prelude.Text.{Bytes}
use amun.Tokenizer.{Tokenizer, step}
use amun.Tokenizer.View.{
  At, first, peek-cons, peek-first, peek_next-second, advance-cons, step-At,
  is_source_available-cons, is_source_available-nil,
}
use amun.Tokenizer.Blank.{count_newline, skip_line_loop, skip_multi_loop, skip_newline}

-- From `s` to `r` so many lines were counted, and `rest` is left.
pub record Skipped (s : Tokenizer) (lines : ℕ) (rest : Bytes) (r : Tokenizer) : Type 0 where
  pub left : At r rest
  pub counted : r.line_number ≡ s.line_number + lines

abbrev pub newline_at : Bytes → ℕ
newline_at rest = if first rest == b'\n' then 1 else 0

abbrev pub newlines : Bytes → ℕ
newlines [] = 0
newlines (c ∷ cs) = (if c == b'\n' then 1 else 0) + newlines cs

pub count_newline-Skipped :
    {s : Tokenizer} (rest : Bytes) → At s rest → Skipped s (newline_at rest) rest (count_newline s)
unfolding count_newline
count_newline-Skipped rest h = rw (peek-first rest h) (elim (Bool-cases (first rest == b'\n')) [
  | inl e ↦ rw e (record {
    left = record { unread = h.unread; sized = h.sized; inside = h.inside };
    counted = refl;
  })
  | inr e ↦ rw e (record { left = h; counted = omega arith })
])

pub skip_newline-Skipped :
    {s : Tokenizer} (rest : Bytes) → At s (b'\n' ∷ rest) → Skipped s 1 rest (skip_newline s)
unfolding skip_newline
skip_newline-Skipped {s} rest h =
    let h' : At (record s { line_number = s.line_number + 1 }) (b'\n' ∷ rest) = record {
      unread = h.unread;
      sized = h.sized;
      inside = h.inside;
    } in
    let next = step-At h' in
    rw (advance-cons h') (record {
      left = record { unread = next.unread; sized = next.sized; inside = next.inside };
      counted = refl;
    })

-- The end of the text or a newline.
abbrev pub ends_line : Bytes → Bool
ends_line [] = true
ends_line (c ∷ cs) = c == b'\n'

pub skip_line_loop-Skipped :
    (fuel : ℕ) (t : Bytes) {s : Tokenizer} (rest : Bytes)
    → all (λ c. not (c == b'\n')) t ≡ true
    → ends_line rest ≡ true
    → length t ≤ fuel
    → At s (t ++ rest)
    → Skipped s 0 rest (skip_line_loop fuel s)
unfolding skip_line_loop
skip_line_loop-Skipped zero [] rest a e l h = record { left = h; counted = omega arith }
skip_line_loop-Skipped zero (c ∷ t) rest a e l h = absurd (omega arith)
skip_line_loop-Skipped (suc fuel) [] [] a e l h =
    rw (is_source_available-nil h) (record { left = h; counted = omega arith })
skip_line_loop-Skipped (suc fuel) [] (c ∷ rest) a e l h =
    rw (is_source_available-cons h, peek-cons h, e) (record { left = h; counted = omega arith })
skip_line_loop-Skipped (suc fuel) (c ∷ t) {s} rest a e l h =
    let plain : (c == b'\n') ≡ false = ground arith in
    let more =
      skip_line_loop-Skipped fuel t {s = step 1 s} rest (ground arith) e (omega arith)
        (step-At h) in
    rw (is_source_available-cons h, peek-cons h, plain, advance-cons h)
      (record { left = more.left; counted = more.counted })

-- No comment ends inside the text.
abbrev pub no_close : Bytes → Bool
no_close [] = true
no_close (c ∷ t) = not (c == b'*' && first t == b'/') && no_close t

abbrev pub close : Bytes → Bytes
close rest = b'*' ∷ b'/' ∷ rest

goes_on :
    (c : ℕ) (t rest : Bytes)
    → no_close (c ∷ t) ≡ true
    → (not (c == b'*') || not (first (t ++ close rest) == b'/')) ≡ true
goes_on c [] rest h = ground arith
goes_on c (d ∷ t) rest h = ground arith

newline_at-close :
    (t rest : Bytes) → newline_at (t ++ close rest) + newlines (drop 1 t) ≡ newlines t
newline_at-close [] rest = refl
newline_at-close (d ∷ t) rest = refl

pub skip_multi_loop-Skipped :
    (fuel : ℕ) (t : Bytes) {s : Tokenizer} (rest : Bytes)
    → no_close t ≡ true
    → length t < fuel
    → At s (t ++ close rest)
    → Skipped s (newlines (drop 1 t)) (close rest) (skip_multi_loop fuel s)
unfolding skip_multi_loop
skip_multi_loop-Skipped zero t rest a l h = absurd (omega arith)
skip_multi_loop-Skipped (suc fuel) [] rest a l h =
    rw (is_source_available-cons h, peek-cons h, peek_next-second (close rest) h)
      (record { left = h; counted = omega arith })
skip_multi_loop-Skipped (suc fuel) (c ∷ t) {s} rest a l h =
    let counts = count_newline-Skipped (t ++ close rest) (step-At h) in
    let more =
      skip_multi_loop-Skipped fuel t {s = count_newline (step 1 s)} rest (ground arith)
        (omega arith) counts.left in
    rw
      (
        is_source_available-cons h,
        peek-cons h,
        peek_next-second (c ∷ (t ++ close rest)) h,
        goes_on c t rest a,
        advance-cons h,
      )
      (record {
        left = more.left;
        counted = omega (arith, more.counted, counts.counted, newline_at-close t rest);
      })
