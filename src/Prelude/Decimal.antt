-- ===== src/Prelude/Decimal.antt =====
-- `std::to_string` of a number: its decimal digits, the first not zero unless it is the only one.
use amun.Prelude.{
  ℕ, zero, suc, ◌+◌, ◌-◌, ◌*◌, ◌/◌, ◌%◌, ◌<◌, ◌≡◌, refl, ap, sym, ◌∙◌, Bool, true, ◌&&◌, [], ◌∷◌,
  ◌++◌, arith, ltb, leb, if◌then◌else◌, all, Bool-cases, inl, inr,
}
use amun.Prelude.Text.{Bytes}

digits_onto : ℕ → ℕ → Bytes
digits_onto zero n = []
digits_onto (suc fuel) n =
    let front = digits_onto fuel (n / 10) in
    if ltb n 10 then (48 + n) ∷ [] else front ++ (48 + n % 10) ∷ []

-- Each round divides by ten, so a round for each unit and one more is enough.
unfoldable pub to_string : ℕ → Bytes
unfolding digits_onto
to_string n = digits_onto (suc n) n

abbrev pub is_decimal : ℕ → Bool
is_decimal c = leb c b'9' && leb b'0' c

-- Reading the digits back.
abbrev pub decimal_value : ℕ → Bytes → ℕ
decimal_value acc [] = acc
decimal_value acc (c ∷ cs) = decimal_value (acc * 10 + (c - 48)) cs

decimal_value-append :
    (xs : Bytes) (acc c : ℕ)
    → decimal_value acc (xs ++ c ∷ []) ≡ decimal_value acc xs * 10 + (c - 48)
decimal_value-append [] acc c = refl
decimal_value-append (x ∷ xs) acc c = decimal_value-append xs (acc * 10 + (x - 48)) c

decimal_value-digits_onto : (f n : ℕ) → n < f → decimal_value 0 (digits_onto f n) ≡ n
unfolding digits_onto
decimal_value-digits_onto zero n h = absurd (omega arith)
decimal_value-digits_onto (suc f) n h = elim (Bool-cases (ltb n 10)) [
  | inl small ↦ rw small (omega arith)
  | inr large ↦ rw large (
      decimal_value-append (digits_onto f (n / 10)) 0 (48 + n % 10)
      ∙ ground (arith, decimal_value-digits_onto f (n / 10)))
]

pub decimal_value-to_string : (n : ℕ) → decimal_value 0 (to_string n) ≡ n
unfolding to_string
decimal_value-to_string n = decimal_value-digits_onto (suc n) n (omega arith)

pub to_string-injective : (a b : ℕ) → to_string a ≡ to_string b → a ≡ b
to_string-injective a b e =
    sym (decimal_value-to_string a) ∙ ap (decimal_value 0) e ∙ decimal_value-to_string b

all-concat :
    (p : ℕ → Bool) (xs : Bytes) (c : ℕ) → all p xs ≡ true → p c ≡ true → all p (xs ++ c ∷ []) ≡ true
all-concat p [] c h k = ground arith
all-concat p (x ∷ xs) c h k = ground (arith, all-concat p xs c)

all-digits_onto : (f n : ℕ) → all is_decimal (digits_onto f n) ≡ true
unfolding digits_onto
all-digits_onto zero n = refl
all-digits_onto (suc f) n = elim (Bool-cases (ltb n 10)) [
  | inl small ↦ rw small (ground arith)
  | inr large ↦ rw large (
      all-concat is_decimal (digits_onto f (n / 10)) (48 + n % 10) (all-digits_onto f (n / 10))
        (ground arith))
]

pub all-to_string : (n : ℕ) → all is_decimal (to_string n) ≡ true
unfolding to_string
all-to_string n = all-digits_onto (suc n) n
