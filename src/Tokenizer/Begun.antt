-- ===== src/Tokenizer/Begun.antt =====
-- A token whose first character has been read, and what a handler yields (src/amun_tokenizer.cpp).
use amun.Prelude.{
  some, none, ℕ, suc, zero, ◌+◌, ◌-◌, ◌≤◌, ◌≡◌, refl, ap, ◌∙◌, Bool, true, not, arith, ◌==◌, ◌∷◌,
  drop, ◌||◌, ◌&&◌,
}
use amun.Prelude.Text.{Bytes}
use amun.Token.{TokenKind}
use amun.Tokenizer.{Tokenizer, Scanned, step, build_token, remaining}
use amun.Tokenizer.View
use amun.Tokenizer.View.{
  peek_next-second, At, peek-cons, advance-cons, step-At, At-lt, is_source_available-cons,
  is_source_available-nil,
}
use amun.Tokenizer.Blank.{skip_step, skip_loop, skip_whitespaces, is_space}
use amun.Tokenizer.Scan.{begin_token, scan_switch, scan_next_token}

-- The token starts with `c`, and `rest` is left to read.
pub record Begun (s : Tokenizer) (c : ℕ) (rest : Bytes) : Type 0 where
  pub first : drop (s.start_position - 1) s.source_code ≡ c ∷ rest
  pub left : At s rest
  pub same : s.start_position ≡ s.current_position
  pub positive : 1 ≤ s.start_position

-- A token of this kind and literal, with `rest` left to read.
pub record Yields (kind : TokenKind) (literal rest : Bytes) (r : Scanned) : Type 0 where
  pub kind_is : r.1.kind ≡ kind
  pub literal_is : r.1.literal ≡ literal
  pub left : At r.0 rest

pub build_token-Yields :
    (kind : TokenKind) (literal : Bytes) {rest : Bytes} {s : Tokenizer}
    → At s rest
    → Yields kind literal rest (build_token kind literal s)
unfolding build_token
build_token-Yields kind literal h = record { kind_is = refl; literal_is = refl; left = h }

-- A byte that starts a token, with what follows it: no white space and no comment.
abbrev pub is_solid : ℕ → Bytes → Bool
is_solid c rest =
    not (is_space c)
    && not (c == b'\n')
    && not (c == b'/' && (View.first rest == b'/' || View.first rest == b'*'))

module _ {s : Tokenizer} {c : ℕ} {rest : Bytes} (h : At s (c ∷ rest)) where
  pub skip_step-solid : is_solid c rest ≡ true → skip_step s ≡ none
  unfolding skip_step
  skip_step-solid solid = rw (peek-cons h, peek_next-second (c ∷ rest) h) (ground arith)

  skip_step-space : is_space c ≡ true → skip_step s ≡ some (step 1 s)
  unfolding skip_step
  skip_step-space e = rw (peek-cons h, e, advance-cons h)

  skip_loop-solid : is_solid c rest ≡ true → (fuel : ℕ) → skip_loop fuel s ≡ s
  unfolding skip_loop
  skip_loop-solid solid zero = refl
  skip_loop-solid solid (suc fuel) = rw (is_source_available-cons h, skip_step-solid solid)

  begin_token-Begun : ((begin_token s).1 ≡ c) × Begun (begin_token s).0 c rest
  unfolding begin_token
  begin_token-Begun = (
    rw (advance-cons started),
    rw (advance-cons started) (record {
      first = rw add_sub h.unread;
      left = record { unread = moved.unread; sized = moved.sized; inside = moved.inside };
      same = refl;
      positive = omega arith;
    }),
  )
    where
      s₁ : Tokenizer
      s₁ = record s { start_position = s.current_position; column_start = s.column_current }

      started : At s₁ (c ∷ rest)
      started = record { unread = h.unread; sized = h.sized; inside = h.inside }

      moved : At (step 1 s₁) rest
      moved = step-At started

      add_sub : s.current_position + 1 - 1 ≡ s.current_position
      add_sub = omega arith

skip_loop-space :
    {s : Tokenizer} {d : ℕ} {rest : Bytes} (fuel : ℕ)
    → At s (d ∷ rest)
    → is_space d ≡ true
    → skip_loop (suc fuel) s ≡ skip_loop fuel (step 1 s)
unfolding skip_loop
skip_loop-space fuel h e = rw (is_source_available-cons h, skip_step-space h e)

skip_whitespaces-space :
    {s : Tokenizer} {c d : ℕ} {rest : Bytes}
    → At s (d ∷ c ∷ rest)
    → is_space d ≡ true
    → is_solid c rest ≡ true
    → skip_whitespaces s ≡ step 1 s
unfolding skip_whitespaces
skip_whitespaces-space {s} h e solid =
    let left : remaining s ≡ suc (remaining s - 1) = omega (arith, At-lt h) in
    ap (λ fuel. skip_loop fuel s) left
    ∙ skip_loop-space (remaining s - 1) h e
    ∙ skip_loop-solid (step-At h) solid (remaining s - 1)

module _ {c : ℕ} {rest : Bytes} {kind : TokenKind} {literal left : Bytes}
    (solid : is_solid c rest ≡ true)
    (handler : (t : Tokenizer) → Begun t c rest → Yields kind literal left (scan_switch c t)) where
  pub switched :
      {s : Tokenizer}
      → At s (c ∷ rest)
      → Yields kind literal left (scan_switch (begin_token s).1 (begin_token s).0)
  switched h = let (e, b) = begin_token-Begun h in rw e (handler _ b)

  pub scan_next_token-solid :
      {s : Tokenizer} → At s (c ∷ rest) → Yields kind literal left (scan_next_token s)
  unfolding scan_next_token skip_whitespaces
  scan_next_token-solid {s} h = rw (skip_loop-solid h solid (remaining s)) (switched h)

  -- A space in front of the token is skipped.
  pub scan_next_token-space :
      {s : Tokenizer} {d : ℕ}
      → is_space d ≡ true
      → At s (d ∷ c ∷ rest)
      → Yields kind literal left (scan_next_token s)
  unfolding scan_next_token
  scan_next_token-space {s} {d} space h =
      rw (skip_whitespaces-space h space solid) (switched (step-At h))
