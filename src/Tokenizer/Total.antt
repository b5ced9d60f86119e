-- ===== src/Tokenizer/Total.antt =====
-- `scan_next_token` advances over a token that it spans, and `scan_all_tokens` ends with a list that
-- the end of the file closes (src/amun_tokenizer.cpp).
use amun.Tokenizer.Chars.{is_alpha, is_digit}
use amun.Tokenizer.Scan.{
  switch_one, one_character, switch_two, two_characters, switch_assign, assign_or_twice, scan_other,
}
use mathlib.Core.Path.{subst}
use amun.Prelude.{
  ℕ, suc, zero, ◌+◌, ◌-◌, ◌≤◌, ◌<◌, ◌≡◌, refl, ap, Bool, true, false, arith, ◌⊎◌, inl, inr,
  if◌then◌else◌, Option, some, List, [], ◌∷◌, length,
}
use amun.Prelude.Text.{Bytes}
use amun.Token.{TokenSpan, Token, token_end_of_file}
use amun.Tokenizer.{
  Tokenizer, new, is_source_available, advance, build_token, build_token_span, Scanned,
}
use amun.Tokenizer.Moves.{Scans}
use amun.Tokenizer.Skips.{Skips, skip_whitespaces-Skips}
use amun.Tokenizer.Progress.{scan_switch-Scanner}
use amun.Tokenizer.Blank.{skip_whitespaces}
use amun.Tokenizer.Scan.{
  begin_token, scan_switch, scan_next_token, prepend, scan_loop, scan_all_tokens,
}

-- What one call of `scan_next_token` does: it passes a byte at least, counts lines upwards, and its
-- token has the line where the scanner stops and columns as far apart as its first and last byte.
pub record Progress (s : Tokenizer) (r : Scanned) : Type 0 where
  pub same_source : r.0.source_code ≡ s.source_code
  pub same_file : r.0.source_file_id ≡ s.source_file_id
  pub same_length : r.0.source_code_length ≡ s.source_code_length
  pub later_line : s.line_number ≤ r.0.line_number
  pub past : s.current_position < r.0.start_position
  pub forward : r.0.start_position ≤ r.0.current_position
  pub file : r.1.position.file_id ≡ s.source_file_id
  pub line : r.1.position.line_number ≡ r.0.line_number
  pub width :
      r.1.position.column_end + r.0.start_position
      ≡ r.1.position.column_start + r.0.current_position
  pub ends :
      (r.0.current_position ≤ s.source_code_length)
      ⊎ ((r.1.kind ≡ token_end_of_file) × (r.0.current_position ≡ s.source_code_length + 1))

-- The state behind the first character of a token.
record Begins (s : Tokenizer) (r : Tokenizer × ℕ) : Type 0 where
  same_source : r.0.source_code ≡ s.source_code
  same_file : r.0.source_file_id ≡ s.source_file_id
  same_length : r.0.source_code_length ≡ s.source_code_length
  same_line : r.0.line_number ≡ s.line_number
  starts : r.0.start_position ≡ s.current_position + 1
  at_start : r.0.current_position ≡ r.0.start_position
  column : r.0.column_current ≡ r.0.column_start
  inside :
      s.current_position ≤ s.source_code_length
      → (s.current_position < s.source_code_length)
        ⊎ ((r.1 ≡ 0) × (s.current_position ≡ s.source_code_length))

begin_token-Begins : (s : Tokenizer) → Begins s (begin_token s)
unfolding begin_token advance is_source_available
begin_token-Begins s = ground arith

pub scan_switch-zero : (s : Tokenizer) → scan_switch 0 s ≡ build_token token_end_of_file [] s
unfolding scan_switch build_token switch_one one_character switch_two two_characters switch_assign
    assign_or_twice scan_other is_alpha is_digit
scan_switch-zero s = refl

module _ {s₀ s : Tokenizer} (b : Tokenizer × ℕ) (k : Skips s₀ s) (begins : Begins s b)
    (h : s₀.current_position ≤ s₀.source_code_length) where
  open begins use {same_source, same_file, same_length, same_line, starts, at_start, column, inside}

  -- Behind the last byte the switch reads a zero, which ends the file.
  switch_ends :
      (r : Scanned)
      → Scans b.0 r
      → (b.1 ≡ 0 → r ≡ build_token token_end_of_file [] b.0)
      → (r.0.current_position ≤ s₀.source_code_length)
        ⊎ ((r.1.kind ≡ token_end_of_file) × (r.0.current_position ≡ s₀.source_code_length + 1))
  unfolding build_token
  switch_ends r m e = elim (inside (omega (arith, k.bounded h))) [
    | inl left ↦ inl (omega (arith, m.moves.bounded (omega arith)))
    | inr (nul, last) ↦ inr (
      ap (λ (x : Scanned). x.1.kind) (e nul),
      omega (arith, ap (λ (x : Scanned). x.0.current_position) (e nul)),
    )
  ]

  switch-Progress : Progress s₀ (scan_switch b.1 b.0)
  unfolding build_token_span
  switch-Progress =
      let m = scan_switch-Scanner b.1 b.0 in
      record {
        same_source = cc (m.moves.same_source, same_source, k.same_source);
        same_file = omega (arith, m.moves.same_file);
        same_length = omega (arith, m.moves.same_length);
        later_line = omega (arith, m.moves.same_line);
        past = omega (arith, m.moves.same_start);
        forward = omega (arith, m.moves.same_start, m.moves.forward);
        file = omega (arith, m.moves.same_file, ap (λ (p : TokenSpan). p.file_id) m.spans);
        line = ap (λ (p : TokenSpan). p.line_number) m.spans;
        width = omega (
          arith,
          m.moves.same_start,
          m.moves.even,
          m.moves.same_column,
          ap (λ (p : TokenSpan). p.column_start) m.spans,
          ap (λ (p : TokenSpan). p.column_end) m.spans,
        );
        ends = switch_ends (scan_switch b.1 b.0) m (λ e. rw e (scan_switch-zero b.0));
      }

-- From a position inside the text, `scan_next_token` keeps the text and the file, passes at least one
-- byte and ends inside the text, or one behind it with the token of the end of the file. Lines do not
-- go back; the token has the file, the line where the scanner stops, and columns as far apart as its
-- first and last byte.
pub scan_next_token-Progress :
    (s : Tokenizer) → s.current_position ≤ s.source_code_length → Progress s (scan_next_token s)
unfolding scan_next_token
scan_next_token-Progress s h =
    switch-Progress (begin_token (skip_whitespaces s)) (skip_whitespaces-Skips s)
      (begin_token-Begins (skip_whitespaces s)) h

-- The tokens of one file, from a line on: each has that file's id, the lines never go back, and the
-- last token ends the file.
pub data Stream (file : ℕ) : ℕ → List Token → Type 0 where
  last :
      {line : ℕ} {token : Token}
      → token.kind ≡ token_end_of_file
      → token.position.file_id ≡ file
      → line ≤ token.position.line_number
      → Stream file line (token ∷ [])
  more :
      {line : ℕ} {token : Token} {tokens : List Token}
      → token.position.file_id ≡ file
      → line ≤ token.position.line_number
      → Stream file token.position.line_number tokens
      → Stream file line (token ∷ tokens)

-- A run of `scan_all_tokens` ends, with at most so many tokens.
pub record Tokens (file line most : ℕ) (result : Option (List Token)) : Type 0 where
  pub tokens : List Token
  pub returned : result ≡ some tokens
  pub stream : Stream file line tokens
  pub few : length tokens ≤ most

Stream-weaken :
    {file line line' : ℕ} {ts : List Token}
    → line' ≤ line
    → Stream file line ts
    → Stream file line' ts
Stream-weaken h (last k f l) = last k f (omega arith)
Stream-weaken h (more f l r) = more f (omega arith) r

if-Tokens :
    (b : Bool) {file line most : ℕ} {x y : Option (List Token)}
    → (b ≡ true → Tokens file line most x)
    → Tokens file line most y
    → Tokens file line most (if b then x else y)
if-Tokens true h k = h refl
if-Tokens false h k = k

-- A round whose later rounds give `rest`.
prepend-Tokens :
    {s : Tokenizer} {r : Scanned} {fuel : ℕ} {rest : Option (List Token)}
    → Progress s r
    → Tokens s.source_file_id r.0.line_number fuel rest
    → Tokens s.source_file_id s.line_number (suc fuel) (prepend r.1 rest)
prepend-Tokens {r} p run = record {
  tokens = r.1 ∷ run.tokens;
  returned = ap (prepend r.1) run.returned;
  stream =
      more p.file (omega (arith, p.line, p.later_line))
        (Stream-weaken (omega (arith, p.line)) run.stream);
  few = omega (arith, run.few);
}

end_of_file-Tokens :
    (s : Tokenizer) (fuel : ℕ)
    → Tokens s.source_file_id s.line_number
        (suc fuel)
        (some ((build_token token_end_of_file [] s).1 ∷ []))
unfolding build_token build_token_span
end_of_file-Tokens s fuel = record {
  tokens = (build_token token_end_of_file [] s).1 ∷ [];
  returned = refl;
  stream = last refl refl (omega arith);
  few = omega arith;
}

available_lt :
    (s : Tokenizer) → is_source_available s ≡ true → s.current_position < s.source_code_length
unfolding is_source_available
available_lt s h = ground arith

scan_loop-Tokens :
    (fuel : ℕ) (s : Tokenizer)
    → s.source_code_length - s.current_position < fuel
    → Tokens s.source_file_id s.line_number fuel (scan_loop fuel s)
unfolding scan_loop
scan_loop-Tokens zero s h = absurd (omega arith)
scan_loop-Tokens (suc fuel) s h =
    if-Tokens (is_source_available s)
      (λ left.
        let p = scan_next_token-Progress s (omega (arith, available_lt s left)) in
        let t = (scan_next_token s).0 in
        let run =
          scan_loop-Tokens fuel t
            (omega (arith, available_lt s left, p.same_length, p.past, p.forward)) in
        prepend-Tokens p
          (subst (λ f. Tokens f t.line_number fuel (scan_loop fuel t)) p.same_file run))
      (end_of_file-Tokens s fuel)

-- Scanning ends for every text. There are at most as many tokens as bytes and one more; all carry
-- the file's id, their lines start from 1 and never go back, and the last is the end of the file.
pub scan_all_tokens-Tokens :
    (source_file_id : ℕ) (source : Bytes)
    → Tokens source_file_id 1 (length source + 1) (scan_all_tokens source_file_id source)
unfolding scan_all_tokens new
scan_all_tokens-Tokens source_file_id source =
    let run = scan_loop-Tokens (suc (length source)) (new source_file_id source) (omega arith) in
    record { tokens = run.tokens; returned = run.returned; stream = run.stream; few = omega arith }
