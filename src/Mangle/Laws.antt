-- ===== src/Mangle/Laws.antt =====
-- The names of src/amun_name_mangle.cpp tell the types apart: on numbers, pointers and arrays the
-- text can be read back, because no type starts with a digit.
use amun.Prelude.{
  ℕ, [], ◌∷◌, ◌++◌, ◌≡◌, ◌≢◌, refl, sym, ap, ◌∙◌, append_assoc, true, false, all, Stops, take_while,
  drop_while, take_while-append, drop_while-append, ◌==◌, if◌then◌else◌, drop, get_or, ==_iff,
}
use amun.Prelude.Text.{Bytes, codes}
use amun.Prelude.Decimal.{to_string, is_decimal, all-to_string, to_string-injective, decimal_value}
use amun.Token.{TokenKind}
use amun.Token.Operators.{overloading_operator_literal}
use amun.Types.{AmunType, Types, NumberKind}
use amun.Types.{
  integer_1, integer_8, integer_16, integer_32, integer_64, u_integer_8, u_integer_16, u_integer_32,
  u_integer_64, float_32, float_64,
}
use amun.Mangle.{
  number_type_managler, mangle_type, mangle_types, mangle_operator_function, text_or_empty,
}

-- The types built from numbers, pointers and arrays.
pub data Plain : AmunType → Type 0 where
  number : (k : NumberKind) → Plain (AmunType.number k)
  pointer : {t : AmunType} → Plain t → Plain (AmunType.pointer t)
  static_array : {t : AmunType} → Plain t → (n : ℕ) → Plain (AmunType.static_array t n)

pub data AllPlain : Types → Type 0 where
  nil : AllPlain Types.nil
  cons : {t : AmunType} {ts : Types} → Plain t → AllPlain ts → AllPlain (Types.cons t ts)

abbrev letter : NumberKind → ℕ
letter u_integer_8 = b'u'
letter u_integer_16 = b'u'
letter u_integer_32 = b'u'
letter u_integer_64 = b'u'
letter float_32 = b'f'
letter float_64 = b'f'
letter _ = b'i'

abbrev digits : NumberKind → Bytes
digits integer_1 = codes "1"
digits integer_8 = codes "8"
digits integer_16 = codes "16"
digits integer_32 = codes "32"
digits integer_64 = codes "64"
digits u_integer_8 = codes "8"
digits u_integer_16 = codes "16"
digits u_integer_32 = codes "32"
digits u_integer_64 = codes "64"
digits float_32 = codes "32"
digits float_64 = codes "64"

-- The kind that a letter and the value of the digits name.
abbrev kind_of : ℕ → ℕ → NumberKind
kind_of c n =
    if c == b'u'
    then (if n == 8
        then u_integer_8
        else if n == 16
        then u_integer_16
        else if n == 32
        then u_integer_32
        else u_integer_64)
    else if c == b'f'
    then (if n == 32 then float_32 else float_64)
    else (if n == 1
        then integer_1
        else if n == 8
        then integer_8
        else if n == 16
        then integer_16
        else if n == 32
        then integer_32
        else integer_64)

kind_of-number : (k : NumberKind) → kind_of (letter k) (decimal_value 0 (digits k)) ≡ k
kind_of-number integer_1 = refl
kind_of-number _ = refl

managler-split : (k : NumberKind) → number_type_managler k ≡ letter k ∷ digits k
managler-split integer_1 = refl
managler-split _ = refl

all-digits : (k : NumberKind) → all is_decimal (digits k) ≡ true
all-digits integer_1 = refl
all-digits _ = refl

split_digits :
    (x y r s : Bytes)
    → all is_decimal x ≡ true
    → all is_decimal y ≡ true
    → Stops is_decimal r
    → Stops is_decimal s
    → x ++ r ≡ y ++ s
    → (x ≡ y) × (r ≡ s)
split_digits x y r s hx hy hr hs e = (
  sym (take_while-append is_decimal x r hx hr)
      ∙ ap (take_while is_decimal) e
      ∙ take_while-append is_decimal y s hy hs,
  sym (drop_while-append is_decimal x r hx hr)
      ∙ ap (drop_while is_decimal) e
      ∙ drop_while-append is_decimal y s hy hs,
)

plain-Stops : {t : AmunType} → Plain t → (r : Bytes) → Stops is_decimal (mangle_type t ++ r)
unfolding mangle_type
plain-Stops (number integer_1) r = refl
plain-Stops (number _) r = refl
plain-Stops (pointer p) r = refl
plain-Stops (static_array p n) r = refl

plains-Stops : {ts : Types} → AllPlain ts → Stops is_decimal (mangle_types ts)
unfolding mangle_type
plains-Stops nil = tt
plains-Stops (cons {t} {ts} p ps) = plain-Stops p (mangle_types ts)

head-apart : (a b : ℕ) (x y : Bytes) → (a == b) ≡ false → a ∷ x ≢ b ∷ y
head-apart a b x y h e = cc (h, (==_iff a b).1 (ap (λ l. get_or l 0 0) e))

number-apart :
    (k : NumberKind) (r s : Bytes)
    → (number_type_managler k ++ r ≢ b'p' ∷ s) × (number_type_managler k ++ r ≢ b'_' ∷ s)
number-apart u_integer_8 r s = (head-apart b'u' b'p' _ _ refl, head-apart b'u' b'_' _ _ refl)
number-apart u_integer_16 r s = (head-apart b'u' b'p' _ _ refl, head-apart b'u' b'_' _ _ refl)
number-apart u_integer_32 r s = (head-apart b'u' b'p' _ _ refl, head-apart b'u' b'_' _ _ refl)
number-apart u_integer_64 r s = (head-apart b'u' b'p' _ _ refl, head-apart b'u' b'_' _ _ refl)
number-apart float_32 r s = (head-apart b'f' b'p' _ _ refl, head-apart b'f' b'_' _ _ refl)
number-apart float_64 r s = (head-apart b'f' b'p' _ _ refl, head-apart b'f' b'_' _ _ refl)
number-apart _ r s = (head-apart b'i' b'p' _ _ refl, head-apart b'i' b'_' _ _ refl)

managler-front :
    (k l : NumberKind) (r s : Bytes)
    → number_type_managler k ++ r ≡ number_type_managler l ++ s
    → letter k ∷ (digits k ++ r) ≡ letter l ∷ (digits l ++ s)
managler-front k l r s e =
    ap (λ x. x ++ r) (sym (managler-split k)) ∙ e ∙ ap (λ x. x ++ s) (managler-split l)

number-injective :
    (k l : NumberKind) (r s : Bytes)
    → Stops is_decimal r
    → Stops is_decimal s
    → number_type_managler k ++ r ≡ number_type_managler l ++ s
    → (AmunType.number k ≡ AmunType.number l) × (r ≡ s)
number-injective k l r s hr hs e =
    let front = managler-front k l r s e in
    let (p, q) =
      split_digits (digits k) (digits l) r s (all-digits k) (all-digits l) hr hs
        (ap (drop 1) front) in
    (
      ap AmunType.number (
          sym (kind_of-number k)
          ∙ cc (ap (λ x. get_or x 0 0) front, ap (decimal_value 0) p)
          ∙ kind_of-number l),
      q,
    )

array-injective :
    (n m : ℕ) (x y r s : Bytes)
    → Stops is_decimal (x ++ r)
    → Stops is_decimal (y ++ s)
    → (codes "_a" ++ (to_string n ++ x)) ++ r ≡ (codes "_a" ++ (to_string m ++ y)) ++ s
    → (n ≡ m) × (x ++ r ≡ y ++ s)
array-injective n m x y r s hr hs e =
    let (p, q) =
      split_digits (to_string n) (to_string m) (x ++ r) (y ++ s) (all-to_string n) (all-to_string m)
        hr hs
        (sym (append_assoc (to_string n) x r) ∙ ap (drop 2) e ∙ append_assoc (to_string m) y s) in
    (to_string-injective n m p, q)

-- Two types and two rests that start with no digit: equal texts have equal types and equal rests.
mangle_type-injective :
    {t u : AmunType}
    → Plain t
    → Plain u
    → (r s : Bytes) → Stops is_decimal r
    → Stops is_decimal s
    → mangle_type t ++ r ≡ mangle_type u ++ s
    → (t ≡ u) × (r ≡ s)
unfolding mangle_type
mangle_type-injective (number k) (number l) r s hr hs e = number-injective k l r s hr hs e
mangle_type-injective (number k) (pointer p) r s hr hs e = absurd ((number-apart k r _).0 e)
mangle_type-injective (number k) (static_array p n) r s hr hs e = absurd ((number-apart k r _).1 e)
mangle_type-injective (pointer p) (number k) r s hr hs e = absurd ((number-apart k s _).0 (sym e))
mangle_type-injective (static_array p n) (number k) r s hr hs e =
    absurd ((number-apart k s _).1 (sym e))
mangle_type-injective (pointer p) (static_array q n) r s hr hs e =
    absurd (head-apart b'p' b'_' _ _ refl e)
mangle_type-injective (static_array p n) (pointer q) r s hr hs e =
    absurd (head-apart b'_' b'p' _ _ refl e)
mangle_type-injective (pointer p) (pointer q) r s hr hs e =
    let (h, k) = mangle_type-injective p q r s hr hs (ap (drop 1) e) in (ap AmunType.pointer h, k)
mangle_type-injective (static_array {t = t} p n) (static_array {t = u} q m) r s hr hs e =
    let (h, k) =
      array-injective n m (mangle_type t) (mangle_type u) r s (plain-Stops p r) (plain-Stops q s)
        e in
    let (i, j) = mangle_type-injective p q r s hr hs k in (cc (h, i), j)

plain-ne-nil : {t : AmunType} → Plain t → (r : Bytes) → mangle_type t ++ r ≢ []
unfolding mangle_type
plain-ne-nil (number integer_1) r e = cc
plain-ne-nil (number _) r e = cc
plain-ne-nil (pointer p) r e = cc
plain-ne-nil (static_array p n) r e = cc

-- Lists of numbers, pointers and arrays with the same text are the same list.
pub mangle_types-injective :
    {ts us : Types} → AllPlain ts → AllPlain us → mangle_types ts ≡ mangle_types us → ts ≡ us
unfolding mangle_type
mangle_types-injective nil nil e = refl
mangle_types-injective nil (cons p ps) e = absurd (plain-ne-nil p _ (sym e))
mangle_types-injective (cons p ps) nil e = absurd (plain-ne-nil p _ e)
mangle_types-injective (cons p ps) (cons q qs) e =
    let (h, k) = mangle_type-injective p q _ _ (plains-Stops ps) (plains-Stops qs) e in
    cc (h, mangle_types-injective ps qs k)

append-cancel : (x a b : Bytes) → x ++ a ≡ x ++ b → a ≡ b
append-cancel [] a b e = e
append-cancel (c ∷ x) a b e = append-cancel x a b (ap (drop 1) e)

-- Two functions for one operator with the same name take the same parameters, when these are numbers,
-- pointers and arrays.
pub mangle_operator_function-injective :
    (kind : TokenKind) {ts us : Types}
    → AllPlain ts
    → AllPlain us
    → mangle_operator_function kind ts ≡ mangle_operator_function kind us
    → ts ≡ us
unfolding mangle_operator_function
mangle_operator_function-injective kind p q e =
    mangle_types-injective p q
      (append-cancel (text_or_empty (overloading_operator_literal kind)) _ _ (ap (drop 10) e))
