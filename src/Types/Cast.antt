-- ===== src/Types/Cast.antt =====
-- src/amun_type.cpp: `can_types_casted`.
use amun.Prelude.{
  Bool, true, false, ◌||◌, ◌&&◌, if◌then◌else◌, ◌≡◌, ◌↔◌, refl, arith, ap, subst, inl, inr, ◌⊎◌, ℕ,
}
use amun.Types.{AmunType, NumberKind, TypeKind, type_kind, type_kind_eq}
use amun.Types.Equality.{is_types_equals}
use amun.Types.Queries.{is_pointer_of_type, is_number_type}

-- The kinds that no cast starts from or ends in.
abbrev pub is_uncastable : TypeKind → Bool
is_uncastable kind =
    type_kind_eq kind TypeKind.void
    || type_kind_eq kind TypeKind.none
    || type_kind_eq kind TypeKind.enum
    || type_kind_eq kind TypeKind.enum_element
    || type_kind_eq kind TypeKind.function

-- The last test: an array to a pointer to its elements.
unfoldable pub array_to_pointer : AmunType → AmunType → Bool
array_to_pointer (AmunType.static_array element_type _) (AmunType.pointer base_type) =
    is_types_equals element_type base_type
array_to_pointer _ _ = false

unfoldable pub can_types_casted : AmunType → AmunType → Bool
can_types_casted from to =
    if is_uncastable (type_kind from)
    then false
    else if is_uncastable (type_kind to)
    then false
    else if is_number_type from && is_number_type to
    then true
    else if is_pointer_of_type from AmunType.void || is_pointer_of_type to AmunType.void
    then true
    else array_to_pointer from to

-- The casts of the language.
pub data Castable : AmunType → AmunType → Type 0 where
  numbers : (k l : NumberKind) → Castable (AmunType.number k) (AmunType.number l)
  from_void_pointer :
      (to : AmunType)
      → is_uncastable (type_kind to) ≡ false
      → Castable (AmunType.pointer AmunType.void) to
  to_void_pointer :
      (from : AmunType)
      → is_uncastable (type_kind from) ≡ false
      → Castable from (AmunType.pointer AmunType.void)
  decay :
      (element base : AmunType) (size : ℕ)
      → is_types_equals element base ≡ true
      → Castable (AmunType.static_array element size) (AmunType.pointer base)

then-false : (c d : Bool) → (if c then false else d) ≡ true → (c ≡ false) × (d ≡ true)
then-false true d h = cc
then-false false d h = (refl, h)

then-true : (c d : Bool) → (if c then true else d) ≡ true → (c ≡ true) ⊎ (d ≡ true)
then-true true d h = inl refl
then-true false d h = inr h

or-true : (c d : Bool) → (c || d) ≡ true → (c ≡ true) ⊎ (d ≡ true)
or-true true d h = inl refl
or-true false d h = inr h

or-right : (c : Bool) → (c || true) ≡ true
or-right true = refl
or-right false = refl

equals_void : (t : AmunType) → is_types_equals t AmunType.void ≡ true → AmunType.void ≡ t
unfolding is_types_equals
equals_void AmunType.void h = refl
equals_void _ h = cc

from_numbers : (a b : AmunType) → (is_number_type a && is_number_type b) ≡ true → Castable a b
unfolding is_number_type
from_numbers (AmunType.number k) (AmunType.number l) h = numbers k l
from_numbers (AmunType.number k) _ h = cc
from_numbers _ _ h = cc

void_pointer :
    (t : AmunType) → is_pointer_of_type t AmunType.void ≡ true → AmunType.pointer AmunType.void ≡ t
unfolding is_pointer_of_type
void_pointer (AmunType.pointer t) h = ap AmunType.pointer (equals_void t h)
void_pointer _ h = cc

from_decay : (a b : AmunType) → array_to_pointer a b ≡ true → Castable a b
unfolding array_to_pointer
from_decay (AmunType.static_array t n) (AmunType.pointer u) h = decay t u n h
from_decay (AmunType.static_array t n) _ h = cc
from_decay _ _ h = cc

from_pointers :
    (a b : AmunType)
    → is_uncastable (type_kind a) ≡ false
    → is_uncastable (type_kind b) ≡ false
    → (is_pointer_of_type a AmunType.void ≡ true) ⊎ (is_pointer_of_type b AmunType.void ≡ true)
    → Castable a b
from_pointers a b p q (inl h) = subst (λ t. Castable t b) (void_pointer a h) (from_void_pointer b q)
from_pointers a b p q (inr h) = subst (λ t. Castable a t) (void_pointer b h) (to_void_pointer a p)

from_tests :
    (a b : AmunType)
    → is_uncastable (type_kind a) ≡ false
    → is_uncastable (type_kind b) ≡ false
    → ((is_pointer_of_type a AmunType.void || is_pointer_of_type b AmunType.void) ≡ true)
      ⊎ (array_to_pointer a b ≡ true)
    → Castable a b
from_tests a b p q (inl h) =
    from_pointers a b p q (or-true (is_pointer_of_type a AmunType.void) _ h)
from_tests a b p q (inr h) = from_decay a b h

from_casted :
    (a b : AmunType)
    → is_uncastable (type_kind a) ≡ false
    → is_uncastable (type_kind b) ≡ false
    → ((is_number_type a && is_number_type b) ≡ true)
      ⊎ ((if is_pointer_of_type a AmunType.void || is_pointer_of_type b AmunType.void
            then true
            else array_to_pointer a b)
          ≡ true)
    → Castable a b
from_casted a b p q (inl h) = from_numbers a b h
from_casted a b p q (inr h) =
    from_tests a b p q
      (then-true (is_pointer_of_type a AmunType.void || is_pointer_of_type b AmunType.void) _ h)

casted→Castable : (a b : AmunType) → can_types_casted a b ≡ true → Castable a b
unfolding can_types_casted
casted→Castable a b h =
    let (p, r) = then-false (is_uncastable (type_kind a)) _ h in
    let (q, s) = then-false (is_uncastable (type_kind b)) _ r in
    from_casted a b p q (then-true (is_number_type a && is_number_type b) _ s)

-- On types that may be cast at all, one test that holds is enough.
by_test :
    (a b : AmunType)
    → is_uncastable (type_kind a) ≡ false
    → is_uncastable (type_kind b) ≡ false
    → (is_pointer_of_type a AmunType.void || is_pointer_of_type b AmunType.void) ≡ true
    → can_types_casted a b ≡ true
unfolding can_types_casted
by_test a b p q h = ground arith

numbers→casted :
    (k l : NumberKind) → can_types_casted (AmunType.number k) (AmunType.number l) ≡ true
unfolding can_types_casted is_number_type
numbers→casted k l = refl

decay→casted :
    (t u : AmunType) (n : ℕ)
    → is_types_equals t u ≡ true
    → can_types_casted (AmunType.static_array t n) (AmunType.pointer u) ≡ true
unfolding can_types_casted is_number_type is_pointer_of_type array_to_pointer
decay→casted t u n h = ground arith

Castable→casted : (a b : AmunType) → Castable a b → can_types_casted a b ≡ true
unfolding is_pointer_of_type is_types_equals
Castable→casted _ _ (numbers k l) = numbers→casted k l
Castable→casted _ _ (from_void_pointer to h) = by_test _ to refl h refl
Castable→casted _ _ (to_void_pointer from h) =
    by_test from _ h refl (or-right (is_pointer_of_type from AmunType.void))
Castable→casted _ _ (decay element base size h) = decay→casted element base size h

-- A cast is allowed exactly between two numbers, from or to a void pointer when the other type is
-- not void, none, an enum or its element, or a function, and from an array to a pointer to a type
-- that equals its element type.
pub can_types_casted_iff : (a b : AmunType) → (can_types_casted a b ≡ true) ↔ Castable a b
can_types_casted_iff a b = (casted→Castable a b, Castable→casted a b)
