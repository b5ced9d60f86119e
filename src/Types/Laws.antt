-- ===== src/Types/Laws.antt =====
-- `is_types_equals` (src/amun_type.cpp) decides equality of keys, so it is an equivalence.
use amun.Prelude.{
  Bool, true, false, ◌&&◌, ◌==◌, ◌≡◌, ◌↔◌, refl, sym, ap, ◌∙◌, arith, ==_iff, suc, Bool-cases, inl,
  inr, ◌⊎◌,
}
use amun.Prelude.Text.{equal, equal_iff}
use amun.Types.{AmunType, Types, FunctionType, struct_name, function_type, nil, cons, size}
use amun.Types.Literal.{get_type_literal}
use amun.Types.Equality.{is_types_equals, is_functions_types_equals, each_equals}
use amun.Types.Key.{key, function_key, keys, number_kind_eq_iff, equals→key}

both : (a b : Bool) → a ≡ true → b ≡ true → (a && b) ≡ true
both a b p q = ground arith

keys-size : (ts us : Types) → keys ts ≡ keys us → size ts ≡ size us
unfolding key
keys-size nil nil e = refl
keys-size nil (cons b us) e = cc
keys-size (cons a ts) nil e = cc
keys-size (cons a ts) (cons b us) e = ap suc (keys-size ts us (cc))

mutual
  unfolding is_types_equals get_type_literal key

  key→equals : (a b : AmunType) → key a ≡ key b → is_types_equals a b ≡ true
  key→equals (AmunType.number k) (AmunType.number l) e = (number_kind_eq_iff k l).1 (cc)
  key→equals (AmunType.pointer a) (AmunType.pointer b) e = key→equals a b (cc)
  key→equals (AmunType.function f) (AmunType.function g) e = function_key→equals f g e
  key→equals (AmunType.static_array a n) (AmunType.static_array b m) e =
      both (n == m) _ ((==_iff n m).1 (cc)) (key→equals a b (cc))
  key→equals (AmunType.static_vector a n) (AmunType.static_vector b m) e =
      both (n == m) _ ((==_iff n m).1 (cc)) (key→equals a b (cc))
  key→equals (AmunType.struct s) (AmunType.struct t) e = (equal_iff _ _).1 (cc)
  key→equals (AmunType.tuple n ts) (AmunType.tuple m us) e = (equal_iff _ _).1 (cc)
  key→equals (AmunType.enum n vs a) (AmunType.enum m us b) e = refl
  key→equals (AmunType.enum_element n a) (AmunType.enum_element m b) e = (equal_iff n m).1 (cc)
  key→equals (AmunType.generic_parameter n) (AmunType.generic_parameter m) e = refl
  key→equals (AmunType.generic_struct s ts) (AmunType.generic_struct t us) e =
      both (equal (struct_name s) (struct_name t)) _
        ((equal_iff (struct_name s) (struct_name t)).1 (cc))
        (both (size ts == size us) _ ((==_iff (size ts) (size us)).1 (keys-size ts us (cc)))
          (keys→each ts us (cc)))
  key→equals AmunType.none AmunType.none e = refl
  key→equals AmunType.void AmunType.void e = refl
  key→equals AmunType.nill AmunType.nill e = refl
  key→equals (AmunType.function (function_type n ts a i v w x y z)) _ e = cc
  key→equals _ (AmunType.function (function_type n ts a i v w x y z)) e = cc
  key→equals _ _ e = cc

  function_key→equals :
      (f g : FunctionType) → function_key f ≡ function_key g → is_functions_types_equals f g ≡ true
  function_key→equals (function_type _ ts a _ _ _ _ _ _) (function_type _ us b _ _ _ _ _ _) e =
      both (size ts == size us) _ ((==_iff (size ts) (size us)).1 (keys-size ts us (cc)))
        (both (each_equals ts us) _ (keys→each ts us (cc)) (key→equals a b (cc)))

  keys→each : (ts us : Types) → keys ts ≡ keys us → each_equals ts us ≡ true
  keys→each nil nil e = refl
  keys→each nil (cons b us) e = refl
  keys→each (cons a ts) nil e = refl
  keys→each (cons a ts) (cons b us) e =
      both (is_types_equals a b) _ (key→equals a b (cc)) (keys→each ts us (cc))

-- Two types are equal for the compiler exactly when their keys are the same: a key has the shape of the
-- type, its kinds of numbers, its sizes, the names of structs and enum elements and the literals of
-- tuples, but not the names of enums and of generic parameters.
pub is_types_equals_iff : (a b : AmunType) → (is_types_equals a b ≡ true) ↔ (key a ≡ key b)
is_types_equals_iff a b = (equals→key a b, key→equals a b)

symmetric :
    (a b : AmunType)
    → (is_types_equals a b ≡ true) ⊎ (is_types_equals a b ≡ false)
    → (is_types_equals b a ≡ true) ⊎ (is_types_equals b a ≡ false)
    → is_types_equals a b ≡ is_types_equals b a
symmetric a b (inl p) r = p ∙ sym (key→equals b a (sym (equals→key a b p)))
symmetric a b (inr p) (inl q) = p ∙ sym p ∙ key→equals a b (sym (equals→key b a q)) ∙ sym q
symmetric a b (inr p) (inr q) = p ∙ sym q

-- A type equals itself, and the order of the arguments does not matter.
pub is_types_equals_symmetric :
    (a b : AmunType) → (is_types_equals a a ≡ true) × (is_types_equals a b ≡ is_types_equals b a)
is_types_equals_symmetric a b = (
  key→equals a a refl,
  symmetric a b (Bool-cases (is_types_equals a b)) (Bool-cases (is_types_equals b a)),
)

-- Types that equal the same type equal one another.
pub is_types_equals_trans :
    (a b c : AmunType)
    → is_types_equals a b ≡ true
    → is_types_equals b c ≡ true
    → is_types_equals a c ≡ true
is_types_equals_trans a b c p q = key→equals a c (equals→key a b p ∙ equals→key b c q)
