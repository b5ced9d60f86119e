-- ===== src/Prelude/Lists.antt =====
-- Lists measured and indexed by native numbers, under the library's names.
use Prim.Native.Nat.{ℕ, zero, suc, ◌+◌, ◌-◌, ◌<◌}
use mathlib.Core.Path.{◌≡◌, refl, ap}
use mathlib.Core.Bool.{Bool, true, false, ◌&&◌, cond}
use mathlib.Core.List.{List, [], ◌∷◌, ◌++◌}
use native.Mathlib.Numerals.{add-one}
use native.Mathlib.Omega.{arith}

module _ {ℓ} {A : Type ℓ} where
  abbrev pub length : List A → ℕ
  length [] = 0
  length (x ∷ xs) = suc (length xs)

  abbrev pub get_or : List A → ℕ → A → A
  get_or [] i d = d
  get_or (x ∷ xs) zero d = x
  get_or (x ∷ xs) (suc i) d = get_or xs i d

  abbrev pub take : ℕ → List A → List A
  take zero xs = []
  take (suc n) [] = []
  take (suc n) (x ∷ xs) = x ∷ take n xs

  abbrev pub drop : ℕ → List A → List A
  drop zero xs = xs
  drop (suc n) [] = []
  drop (suc n) (x ∷ xs) = drop n xs

  -- Every element passes the test.
  abbrev pub all : (A → Bool) → List A → Bool
  all p [] = true
  all p (x ∷ xs) = p x && all p xs

  pub length-append : (xs ys : List A) → length (xs ++ ys) ≡ length xs + length ys
  length-append [] ys = omega arith
  length-append (x ∷ xs) ys = omega (arith, length-append xs ys)

  pub length-drop : (n : ℕ) (xs : List A) → length (drop n xs) ≡ length xs - n
  length-drop zero xs = omega arith
  length-drop (suc n) [] = omega arith
  length-drop (suc n) (x ∷ xs) = omega (arith, length-drop n xs)

  pub drop-length : (xs : List A) → drop (length xs) xs ≡ []
  drop-length [] = refl
  drop-length (x ∷ xs) = drop-length xs

  -- What stands at a place is the head of what is left from there.
  pub get_or-drop :
      (n : ℕ) (xs : List A) {x : A} {r : List A} (d : A) → drop n xs ≡ x ∷ r → get_or xs n d ≡ x
  get_or-drop zero [] d e = cc
  get_or-drop zero (y ∷ xs) d e = cc
  get_or-drop (suc n) [] d e = cc
  get_or-drop (suc n) (y ∷ xs) d e = get_or-drop n xs d e

  pub get_or-drop_nil : (n : ℕ) (xs : List A) (d : A) → drop n xs ≡ [] → get_or xs n d ≡ d
  get_or-drop_nil zero [] d e = refl
  get_or-drop_nil zero (y ∷ xs) d e = cc
  get_or-drop_nil (suc n) [] d e = refl
  get_or-drop_nil (suc n) (y ∷ xs) d e = get_or-drop_nil n xs d e

  drop-suc : (n : ℕ) (xs : List A) {x : A} {r : List A} → drop n xs ≡ x ∷ r → drop (suc n) xs ≡ r
  drop-suc zero [] e = cc
  drop-suc zero (y ∷ xs) e = cc
  drop-suc (suc n) [] e = cc
  drop-suc (suc n) (y ∷ xs) e = drop-suc n xs e

  pub drop-add_one :
      (n : ℕ) (xs : List A) {x : A} {r : List A} → drop n xs ≡ x ∷ r → drop (n + 1) xs ≡ r
  drop-add_one n xs e = rw add-one (drop-suc n xs e)

  pub take-append : (xs ys : List A) → take (length xs) (xs ++ ys) ≡ xs
  take-append [] ys = refl
  take-append (x ∷ xs) ys = ap (◌∷◌ x) (take-append xs ys)

  pub drop-ne-nil_lt :
      (n : ℕ) (xs : List A) {x : A} {r : List A} → drop n xs ≡ x ∷ r → n < length xs
  drop-ne-nil_lt n [] e = drop-of_nil n e
    where
      drop-of_nil : (k : ℕ) {y : A} {s : List A} → drop k [] ≡ y ∷ s → k < 0
      drop-of_nil zero e' = cc
      drop-of_nil (suc k) e' = cc
  drop-ne-nil_lt zero (y ∷ xs) e = omega arith
  drop-ne-nil_lt (suc n) (y ∷ xs) e = omega (arith, drop-ne-nil_lt n xs e)

module _ {ℓ} {A : Type ℓ} where
  -- The longest front whose elements pass the test, and what is left.
  abbrev pub take_while : (A → Bool) → List A → List A
  take_while p [] = []
  take_while p (x ∷ xs) = cond (p x) (x ∷ take_while p xs) []

  abbrev pub drop_while : (A → Bool) → List A → List A
  drop_while p [] = []
  drop_while p (x ∷ xs) = cond (p x) (drop_while p xs) (x ∷ xs)

  -- The first element fails the test, if there is one.
  abbrev pub Stops : (A → Bool) → List A → Type 0
  Stops p [] = Unit {0}
  Stops p (x ∷ xs) = p x ≡ false

  pub take_while-append :
      (p : A → Bool) (xs ys : List A) → all p xs ≡ true → Stops p ys → take_while p (xs ++ ys) ≡ xs
  take_while-append p [] [] h k = refl
  take_while-append p [] (y ∷ ys) h k = rw k
  take_while-append p (x ∷ xs) ys h k = ground (arith, take_while-append p xs ys)

  pub drop_while-append :
      (p : A → Bool) (xs ys : List A) → all p xs ≡ true → Stops p ys → drop_while p (xs ++ ys) ≡ ys
  drop_while-append p [] [] h k = refl
  drop_while-append p [] (y ∷ ys) h k = rw k
  drop_while-append p (x ∷ xs) ys h k = ground (arith, drop_while-append p xs ys)

  pub take_while-append-drop_while :
      (p : A → Bool) (xs : List A) → take_while p xs ++ drop_while p xs ≡ xs
  take_while-append-drop_while p [] = refl
  take_while-append-drop_while p (x ∷ xs) = ground (arith, take_while-append-drop_while p xs)

  pub take-take_while :
      (p : A → Bool) (xs : List A) → take (length (take_while p xs)) xs ≡ take_while p xs
  take-take_while p [] = refl
  take-take_while p (x ∷ xs) = ground (arith, take-take_while p xs)
