-- ===== src/Types/Key.antt =====
-- What `is_types_equals` (src/amun_type.cpp) compares: the shape of a type with the parts that it
-- looks at. Two enums, and two generic parameters, are not told apart; structs go by their name.
use amun.Prelude.{
  ℕ, Bool, true, ◌&&◌, ◌==◌, ◌≡◌, ◌↔◌, refl, sym, ap, ◌∙◌, arith, ==_iff, List, [], ◌∷◌, get_or,
}
use amun.Prelude.Text.{Bytes, equal, equal_iff}
use amun.Types.{
  AmunType, Types, FunctionType, NumberKind, struct_name, function_type, nil, cons,
  number_kind_value, number_kind_eq, size,
}
use amun.Types.{
  integer_1, integer_8, integer_16, integer_32, integer_64, u_integer_8, u_integer_16, u_integer_32,
  u_integer_64, float_32, float_64,
}
use amun.Types.Literal.{get_type_literal}
use amun.Types.Equality.{is_types_equals, is_functions_types_equals, each_equals}

mutual
  pub data Key : Type 0 where
    number : NumberKind → Key
    pointer : Key → Key
    function : Keys → Key → Key
    static_array : Key → ℕ → Key
    static_vector : Key → ℕ → Key
    struct : Bytes → Key
    tuple : Bytes → Key
    enum_element : Bytes → Key
    generic_struct : Bytes → Keys → Key
    enum generic_parameter none void nill : Key

  pub data Keys : Type 0 where
    no_keys : Keys
    key_and : Key → Keys → Keys

unfoldable mutual
  pub key : AmunType → Key
  key (AmunType.number k) = Key.number k
  key (AmunType.pointer a) = Key.pointer (key a)
  key (AmunType.function f) = function_key f
  key (AmunType.static_array a n) = Key.static_array (key a) n
  key (AmunType.static_vector a n) = Key.static_vector (key a) n
  key (AmunType.struct s) = Key.struct (struct_name s)
  key (AmunType.tuple n ts) = Key.tuple (get_type_literal (AmunType.tuple n ts))
  key (AmunType.enum n vs a) = Key.enum
  key (AmunType.enum_element n a) = Key.enum_element n
  key (AmunType.generic_parameter n) = Key.generic_parameter
  key (AmunType.generic_struct s ts) = Key.generic_struct (struct_name s) (keys ts)
  key AmunType.none = Key.none
  key AmunType.void = Key.void
  key AmunType.nill = Key.nill

  pub function_key : FunctionType → Key
  function_key (function_type _ ts a _ _ _ _ _ _) = Key.function (keys ts) (key a)

  pub keys : Types → Keys
  keys nil = no_keys
  keys (cons t ts) = key_and (key t) (keys ts)

abbrev number_kinds : List NumberKind
number_kinds =
    integer_1 ∷ integer_8 ∷ integer_16 ∷ integer_32 ∷ integer_64 ∷ u_integer_8 ∷ u_integer_16
    ∷ u_integer_32 ∷ u_integer_64 ∷ float_32 ∷ float_64 ∷ []

get_or-number_kind_value : (k : NumberKind) → get_or number_kinds (number_kind_value k) float_64 ≡ k
get_or-number_kind_value integer_1 = refl
get_or-number_kind_value _ = refl

pub number_kind_eq_iff : (a b : NumberKind) → (number_kind_eq a b ≡ true) ↔ (a ≡ b)
number_kind_eq_iff a b = (
  λ h.
      sym (get_or-number_kind_value a)
      ∙ ap (λ n. get_or number_kinds n float_64)
          ((==_iff (number_kind_value a) (number_kind_value b)).0 h)
      ∙ get_or-number_kind_value b,
  λ e. (==_iff (number_kind_value a) (number_kind_value b)).1 (ap number_kind_value e),
)

and-true : (a b : Bool) → (a && b) ≡ true → (a ≡ true) × (b ≡ true)
and-true a b h = ground arith

mutual
  unfolding is_types_equals get_type_literal key

  pub equals→key : (a b : AmunType) → is_types_equals a b ≡ true → key a ≡ key b
  equals→key (AmunType.number k) (AmunType.number l) h =
      ap Key.number ((number_kind_eq_iff k l).0 h)
  equals→key (AmunType.pointer a) (AmunType.pointer b) h = ap Key.pointer (equals→key a b h)
  equals→key (AmunType.function f) (AmunType.function g) h = equals→function_key f g h
  equals→key (AmunType.static_array a n) (AmunType.static_array b m) h =
      let (p, q) = and-true (n == m) _ h in cc ((==_iff n m).0 p, equals→key a b q)
  equals→key (AmunType.static_vector a n) (AmunType.static_vector b m) h =
      let (p, q) = and-true (n == m) _ h in cc ((==_iff n m).0 p, equals→key a b q)
  equals→key (AmunType.struct s) (AmunType.struct t) h = ap Key.struct ((equal_iff _ _).0 h)
  equals→key (AmunType.tuple n ts) (AmunType.tuple m us) h = ap Key.tuple ((equal_iff _ _).0 h)
  equals→key (AmunType.enum n vs a) (AmunType.enum m us b) h = refl
  equals→key (AmunType.enum_element n a) (AmunType.enum_element m b) h =
      ap Key.enum_element ((equal_iff n m).0 h)
  equals→key (AmunType.generic_parameter n) (AmunType.generic_parameter m) h = refl
  equals→key (AmunType.generic_struct s ts) (AmunType.generic_struct t us) h =
      let (p, q) = and-true (equal (struct_name s) (struct_name t)) _ h in
      let (l, e) = and-true (size ts == size us) _ q in
      cc (
        (equal_iff (struct_name s) (struct_name t)).0 p,
        each→keys ts us ((==_iff (size ts) (size us)).0 l) e,
      )
  equals→key AmunType.none AmunType.none h = refl
  equals→key AmunType.void AmunType.void h = refl
  equals→key AmunType.nill AmunType.nill h = refl
  equals→key _ _ h = cc

  equals→function_key :
      (f g : FunctionType) → is_functions_types_equals f g ≡ true → function_key f ≡ function_key g
  equals→function_key (function_type _ ts a _ _ _ _ _ _) (function_type _ us b _ _ _ _ _ _) h =
      let (l, q) = and-true (size ts == size us) _ h in
      let (e, r) = and-true (each_equals ts us) _ q in
      cc (each→keys ts us ((==_iff (size ts) (size us)).0 l) e, equals→key a b r)

  each→keys : (ts us : Types) → size ts ≡ size us → each_equals ts us ≡ true → keys ts ≡ keys us
  each→keys nil nil l h = refl
  each→keys nil (cons b us) l h = absurd (omega arith)
  each→keys (cons a ts) nil l h = absurd (omega arith)
  each→keys (cons a ts) (cons b us) l h =
      let (p, q) = and-true (is_types_equals a b) _ h in
      cc (equals→key a b p, each→keys ts us (omega arith) q)
