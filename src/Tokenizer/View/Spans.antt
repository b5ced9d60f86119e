-- ===== src/Tokenizer/View/Spans.antt =====
-- The loops that advance while a test holds read the longest front of the text that passes it: the
-- fuel `remaining` is enough (src/amun_tokenizer.cpp).
use amun.Prelude.{
  ℕ, suc, zero, ◌≤◌, ◌≡◌, ap, Bool, true, false, arith, [], ◌∷◌, length, take_while, drop_while,
  length-drop, Bool-cases, inl, inr,
}
use amun.Prelude.Text.{Bytes}
use amun.Tokenizer.{Tokenizer, step, advance_while, remaining}
use amun.Tokenizer.View.{At, peek-cons, advance-cons, step-At, peek-nil}

abbrev pub not_nil : Bytes → Bool
not_nil [] = false
not_nil (c ∷ cs) = true

step-zero : (s : Tokenizer) → step 0 s ≡ s
step-zero s = ground arith

step-step : (n : ℕ) (s : Tokenizer) → step n (step 1 s) ≡ step (suc n) s
step-step n s = ground arith

pub remaining-length : {s : Tokenizer} {rest : Bytes} → At s rest → remaining s ≡ length rest
remaining-length {s} h =
    omega (arith, length-drop s.current_position s.source_code, ap length h.unread, h.sized)

advance_while-front :
    (test : ℕ → Bool) (fuel : ℕ) {s : Tokenizer} (rest : Bytes)
    → At s rest
    → length rest ≤ fuel
    → test 0 ≡ false
    → advance_while test fuel s
      ≡ (step (length (take_while test rest)) s, not_nil (take_while test rest))
unfolding advance_while
advance_while-front test zero {s} [] h l z = ground arith
advance_while-front test zero (c ∷ rest) h l z = absurd (omega arith)
advance_while-front test (suc fuel) {s} [] h l z = rw (peek-nil h, z) (ground arith)
advance_while-front test (suc fuel) {s} (c ∷ rest) h l z =
    rw (peek-cons h, advance-cons h)
      (elim (Bool-cases (test c)) [
        | inl e ↦
            rw (e, advance_while-front test fuel rest (step-At h) (omega arith) z) (ground arith)
        | inr e ↦ rw e (ground arith)
      ])

-- With a test that fails on the end of the text, the loop moves over the longest front of what is left
-- that passes it, and reports whether that is not empty.
pub advance_while-take_while :
    (test : ℕ → Bool) {s : Tokenizer} (rest : Bytes)
    → At s rest
    → test 0 ≡ false
    → advance_while test (remaining s) s
      ≡ (step (length (take_while test rest)) s, not_nil (take_while test rest))
advance_while-take_while test {s} rest h z =
    advance_while-front test (remaining s) rest h (omega (arith, remaining-length h)) z

pub step-At_many :
    (test : ℕ → Bool) (rest : Bytes) {s : Tokenizer}
    → At s rest
    → At (step (length (take_while test rest)) s) (drop_while test rest)
step-At_many test [] h = rw step-zero h
step-At_many test (c ∷ rest) {s} h = elim (Bool-cases (test c)) [
  | inl e ↦ rw e (rw (← step-step) (step-At_many test rest {s = step 1 s} (step-At h)))
  | inr e ↦ rw e (rw step-zero h)
]
