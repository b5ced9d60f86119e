-- ===== src/Types/Tests.antt =====
-- The laws of the types on concrete ones.
use amun.Prelude.{ℕ, ◌≡◌, ◌↔◌, refl, [], ◌∷◌, true}
use amun.Types.{AmunType, integer_8, u_integer_8}
use amun.Types.Equality.{is_types_equals}
use amun.Types.Key.{key}
use amun.Types.Laws.{is_types_equals_iff, is_types_equals_symmetric, is_types_equals_trans}
use amun.Types.Cast.{Castable, can_types_casted, can_types_casted_iff}
use amun.Types.Limits.{
  integers_kind_min_value, integers_kind_max_value, integers_kind_bounds, bounds_of,
}

abbrev bytes : AmunType
bytes = AmunType.static_array (AmunType.number u_integer_8) 4

abbrev byte_pointer : AmunType
byte_pointer = AmunType.pointer (AmunType.number u_integer_8)

abbrev name : ℕ → AmunType
name c = AmunType.generic_parameter (c ∷ [])

is_types_equals_iff_example :
    (is_types_equals bytes byte_pointer ≡ true) ↔ (key bytes ≡ key byte_pointer)
is_types_equals_iff_example = is_types_equals_iff bytes byte_pointer

is_types_equals_symmetric_example :
    (is_types_equals bytes bytes ≡ true)
    × (is_types_equals bytes byte_pointer ≡ is_types_equals byte_pointer bytes)
is_types_equals_symmetric_example = is_types_equals_symmetric bytes byte_pointer

is_types_equals_trans_example : is_types_equals (name b'A') (name b'C') ≡ true
unfolding is_types_equals
is_types_equals_trans_example = is_types_equals_trans (name b'A') (name b'B') (name b'C') refl refl

can_types_casted_iff_example :
    (can_types_casted bytes byte_pointer ≡ true) ↔ Castable bytes byte_pointer
can_types_casted_iff_example = can_types_casted_iff bytes byte_pointer

integers_kind_bounds_example :
    (integers_kind_min_value integer_8, integers_kind_max_value integer_8) ≡ bounds_of integer_8
integers_kind_bounds_example = integers_kind_bounds integer_8
