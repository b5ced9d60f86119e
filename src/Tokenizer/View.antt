-- ===== src/Tokenizer/View.antt =====
-- The text that a tokenizer has not read yet, as a list. Each reading primitive of
-- src/amun_tokenizer.cpp, which works on positions, is a step on that list.
pub mod Spans
use amun.Prelude.{
  ℕ, suc, zero, ◌+◌, ◌-◌, ◌≤◌, ◌<◌, ◌≡◌, refl, sym, ap, ◌∙◌, Bool, true, false, not, arith, ◌==◌,
  ltb, if◌then◌else◌, List, [], ◌∷◌, length, drop, get_or, get_or-drop, get_or-drop_nil,
  drop-add_one, drop-ne-nil_lt, length-drop, lt→ltb, Bool-cases, inl, inr,
}
use amun.Prelude.Text.{Bytes}
use amun.Tokenizer.{
  Tokenizer, is_source_available, peek, peek_next, step, advance, match, match_two, branch,
  on_match,
}

-- `rest` is what is left to read.
pub record At (s : Tokenizer) (rest : Bytes) : Type 0 where
  pub unread : drop s.current_position s.source_code ≡ rest
  pub sized : s.source_code_length ≡ length s.source_code
  pub inside : s.current_position ≤ s.source_code_length

module _ {s : Tokenizer} {c : ℕ} {rest : Bytes} (h : At s (c ∷ rest)) where
  pub At-lt : s.current_position < s.source_code_length
  At-lt = omega (arith, drop-ne-nil_lt s.current_position s.source_code h.unread, h.sized)

  pub is_source_available-cons : is_source_available s ≡ true
  unfolding is_source_available
  is_source_available-cons = lt→ltb _ _ At-lt

  pub peek-cons : peek s ≡ c
  unfolding peek
  peek-cons = get_or-drop s.current_position s.source_code 0 h.unread

  pub advance-cons : advance s ≡ (step 1 s, c)
  unfolding advance is_source_available
  advance-cons = rw (lt→ltb _ _ At-lt, peek-cons')
    where
      peek-cons' : get_or s.source_code s.current_position 0 ≡ c
      peek-cons' = get_or-drop s.current_position s.source_code 0 h.unread

  pub step-At : At (step 1 s) rest
  step-At = record {
    unread = drop-add_one s.current_position s.source_code h.unread;
    sized = h.sized;
    inside = omega (arith, At-lt);
  }

module _ {s : Tokenizer} (h : At s []) where
  pub peek-nil : peek s ≡ 0
  unfolding peek
  peek-nil = get_or-drop_nil s.current_position s.source_code 0 h.unread

  pub At-end : s.current_position ≡ s.source_code_length
  At-end =
      omega
        (arith, length-drop s.current_position s.source_code, ap length h.unread, h.sized, h.inside)

  pub is_source_available-nil : is_source_available s ≡ false
  unfolding is_source_available
  is_source_available-nil = let e = At-end in ground arith

-- What `peek` and `peek_next` see of a list.
abbrev pub first : Bytes → ℕ
first [] = 0
first (c ∷ rest) = c

abbrev pub second : Bytes → ℕ
second [] = 0
second (c ∷ rest) = first rest

pub peek-first : {s : Tokenizer} (rest : Bytes) → At s rest → peek s ≡ first rest
peek-first [] h = peek-nil h
peek-first (c ∷ rest) h = peek-cons h

pub peek_next-second : {s : Tokenizer} (rest : Bytes) → At s rest → peek_next s ≡ second rest
unfolding peek_next
peek_next-second [] h = let e = At-end h in ground arith
peek_next-second {s} (c ∷ []) h = let next = step-At h in let e = At-end next in ground arith
peek_next-second {s} (c ∷ d ∷ rest) h =
    let next = step-At h in
    rw (lt→ltb _ _ (At-lt next)) (get_or-drop (s.current_position + 1) s.source_code 0 next.unread)

abbrev pub starts : ℕ → Bytes → Bool
starts c [] = false
starts c (d ∷ rest) = c == d

module _ {s : Tokenizer} where
  pub match-starts :
      (c : ℕ) (rest : Bytes)
      → At s rest
      → match c s ≡ (if starts c rest then (step 1 s, true) else (s, false))
  unfolding match
  match-starts c [] h = rw (is_source_available-nil h)
  match-starts c (d ∷ rest) h = rw (is_source_available-cons h, peek-cons h) (ground arith)

  pub on_match-starts {ℓ} :
      {A : Type ℓ} (c : ℕ) (hit miss : Tokenizer → A) (rest : Bytes)
      → At s rest
      → on_match c hit miss s ≡ (if starts c rest then hit (step 1 s) else miss s)
  on_match-starts c hit miss rest h =
      rw (match-starts c rest h) (elim (Bool-cases (starts c rest)) [ inl e ↦ rw e | inr e ↦ rw e ])
