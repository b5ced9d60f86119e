-- ===== src/Tokenizer/Moves.antt =====
-- How the operations of the tokenizer move over the text: inside a token (`Moves`) the line and the
-- start stay and the column follows the position; between tokens (`Skips`) lines are counted.
use amun.Prelude.{
  List, ℕ, suc, zero, ◌+◌, ◌≤◌, ◌≡◌, ◌≢◌, refl, Bool, true, false, arith, Bool-cases, inl, inr,
  if◌then◌else◌,
}
use amun.Token.{TokenKind}
use amun.Tokenizer.{
  Tokenizer, is_source_available, peek, peek_next, advance, match, match_two, advance_while,
  build_token, build_token_span, Scanned, branch, on_match, on_both,
}

pub record Moves (s t : Tokenizer) : Type 0 where
  pub same_source : t.source_code ≡ s.source_code
  pub same_file : t.source_file_id ≡ s.source_file_id
  pub same_length : t.source_code_length ≡ s.source_code_length
  pub same_start : t.start_position ≡ s.start_position
  pub same_line : t.line_number ≡ s.line_number
  pub same_column : t.column_start ≡ s.column_start
  pub forward : s.current_position ≤ t.current_position
  pub even : t.column_current + s.current_position ≡ s.column_current + t.current_position
  pub bounded :
      s.current_position ≤ s.source_code_length → t.current_position ≤ s.source_code_length

pub Moves-refl : (s : Tokenizer) → Moves s s
Moves-refl s = ground arith

pub Moves-trans : {s t u : Tokenizer} → Moves s t → Moves t u → Moves s u
Moves-trans a b = record {
  same_source = cc (a.same_source, b.same_source);
  same_file = omega arith;
  same_length = omega arith;
  same_start = omega arith;
  same_line = omega arith;
  same_column = omega arith;
  forward = omega arith;
  even = omega arith;
  bounded = λ h. omega (arith, b.bounded, a.bounded h);
}

pub advance-Moves : (s : Tokenizer) → Moves s (advance s).0
unfolding advance is_source_available
advance-Moves s = ground arith

pub match-Moves : (c : ℕ) (s : Tokenizer) → Moves s (match c s).0
unfolding match is_source_available
match-Moves c s = ground arith

pub match_two-Moves : (c d : ℕ) (s : Tokenizer) → d ≢ 0 → Moves s (match_two c d s).0
unfolding match_two peek_next
match_two-Moves c d s h = ground arith

pub advance_while-Moves :
    (test : ℕ → Bool) (fuel : ℕ) (s : Tokenizer) → Moves s (advance_while test fuel s).0
unfolding advance_while
advance_while-Moves test zero s = Moves-refl s
advance_while-Moves test (suc fuel) s = elim (Bool-cases (test (peek s))) [
  | inl more ↦ rw more (Moves-trans (advance-Moves s) (advance_while-Moves test fuel (advance s).0))
  | inr done ↦ rw done (Moves-refl s)
]

-- A handler moves over its token, whose span is that of the state where it stops.
pub record Scans (s : Tokenizer) (r : Scanned) : Type 0 where
  pub moves : Moves s r.0
  pub spans : r.1.position ≡ build_token_span r.0

abbrev pub Scanner : (Tokenizer → Scanned) → Type 0
Scanner f = (s : Tokenizer) → Scans s (f s)

pub build_token-Scans :
    (kind : TokenKind) {s t : Tokenizer} (literal : List ℕ)
    → Moves s t
    → Scans s (build_token kind literal t)
unfolding build_token
build_token-Scans kind literal m = record { moves = m; spans = refl }

pub Scans-after : {s t : Tokenizer} {r : Scanned} → Moves s t → Scans t r → Scans s r
Scans-after m h = record { moves = Moves-trans m h.moves; spans = h.spans }

pub branch-Scans :
    (hit miss : Tokenizer → Scanned) {s : Tokenizer} (r : Tokenizer × Bool)
    → Moves s r.0
    → Scanner hit
    → Scanner miss
    → Scans s (branch hit miss r)
branch-Scans hit miss (t, true) m h k = Scans-after m (h t)
branch-Scans hit miss (t, false) m h k = Scans-after m (k t)

pub on_match-Scanner :
    {hit miss : Tokenizer → Scanned} (c : ℕ)
    → Scanner hit
    → Scanner miss
    → Scanner (on_match c hit miss)
on_match-Scanner {hit} {miss} c h k s = branch-Scans hit miss (match c s) (match-Moves c s) h k

pub on_both-Scanner :
    {hit miss : Tokenizer → Scanned} (c d : ℕ)
    → Scanner hit
    → Scanner miss
    → Scanner (on_both c d hit miss)
on_both-Scanner c d h k = on_match-Scanner c (on_match-Scanner d h k) k

pub if-Scans :
    (b : Bool) {x y : Scanned} {s : Tokenizer}
    → Scans s x
    → Scans s y
    → Scans s (if b then x else y)
if-Scans true h k = h
if-Scans false h k = k
