-- ===== src/Types/Queries.antt =====
-- src/amun_type.cpp: the tests on one type, and include/amun_primitives.hpp: the types they meet.
use amun.Prelude.{Bool, false, not, ◌&&◌, ◌||◌, ◌≡◌, refl}
use amun.Types.{
  AmunType, NumberKind, TypeKind, type_kind, type_kind_eq, number_kind_eq, integer_1, integer_8,
  integer_16, integer_32, integer_64, u_integer_8, u_integer_16, u_integer_32, u_integer_64,
  float_32, float_64,
}
use amun.Types.Equality.{is_types_equals}

abbrev kind_is : TypeKind → AmunType → Bool
kind_is kind t = type_kind_eq (type_kind t) kind

-- A test on the kind of a number; any other type fails it.
abbrev number_is : (NumberKind → Bool) → AmunType → Bool
number_is test (AmunType.number k) = test k
number_is test _ = false

unfoldable pub is_number_type : AmunType → Bool
is_number_type = kind_is TypeKind.number

unfoldable pub is_integer_type : AmunType → Bool
is_integer_type =
    number_is (λ k. not (number_kind_eq k float_32) && not (number_kind_eq k float_64))

unfoldable pub is_signed_integer_type : AmunType → Bool
is_signed_integer_type = number_is (λ k.
    number_kind_eq k integer_1
    || number_kind_eq k integer_8
    || number_kind_eq k integer_16
    || number_kind_eq k integer_32
    || number_kind_eq k integer_64)

unfoldable pub is_unsigned_integer_type : AmunType → Bool
is_unsigned_integer_type = number_is (λ k.
    number_kind_eq k u_integer_8
    || number_kind_eq k u_integer_16
    || number_kind_eq k u_integer_32
    || number_kind_eq k u_integer_64)

unfoldable pub is_integer1_type : AmunType → Bool
is_integer1_type = number_is (λ k. number_kind_eq k integer_1)

unfoldable pub is_integer32_type : AmunType → Bool
is_integer32_type = number_is (λ k. number_kind_eq k integer_32)

unfoldable pub is_integer64_type : AmunType → Bool
is_integer64_type = number_is (λ k. number_kind_eq k integer_64)

unfoldable pub is_enum_type : AmunType → Bool
is_enum_type = kind_is TypeKind.enum

unfoldable pub is_enum_element_type : AmunType → Bool
is_enum_element_type = kind_is TypeKind.enum_element

unfoldable pub is_struct_type : AmunType → Bool
is_struct_type = kind_is TypeKind.struct

unfoldable pub is_generic_struct_type : AmunType → Bool
is_generic_struct_type = kind_is TypeKind.generic_struct

unfoldable pub is_tuple_type : AmunType → Bool
is_tuple_type = kind_is TypeKind.tuple

unfoldable pub is_boolean_type : AmunType → Bool
is_boolean_type = number_is (λ k. number_kind_eq k integer_1)

unfoldable pub is_function_type : AmunType → Bool
is_function_type = kind_is TypeKind.function

unfoldable pub is_array_type : AmunType → Bool
is_array_type = kind_is TypeKind.static_array

unfoldable pub is_vector_type : AmunType → Bool
is_vector_type = kind_is TypeKind.static_vector

unfoldable pub is_pointer_type : AmunType → Bool
is_pointer_type = kind_is TypeKind.pointer

unfoldable pub is_void_type : AmunType → Bool
is_void_type = kind_is TypeKind.void

unfoldable pub is_null_type : AmunType → Bool
is_null_type = kind_is TypeKind.nill

unfoldable pub is_function_pointer_type : AmunType → Bool
unfolding is_function_type
is_function_pointer_type (AmunType.pointer base) = is_function_type base
is_function_pointer_type _ = false

-- An array of, or a pointer to, the none type counts as none.
unfoldable pub is_none_type : AmunType → Bool
is_none_type (AmunType.static_array element_type _) = kind_is TypeKind.none element_type
is_none_type (AmunType.pointer base_type) = kind_is TypeKind.none base_type
is_none_type t = kind_is TypeKind.none t

unfoldable pub is_pointer_of_type : AmunType → AmunType → Bool
is_pointer_of_type (AmunType.pointer base_type) base = is_types_equals base_type base
is_pointer_of_type _ base = false

unfoldable pub is_array_of_type : AmunType → AmunType → Bool
is_array_of_type (AmunType.static_array element_type _) base = is_types_equals element_type base
is_array_of_type _ base = false

-- Each number is an integer, signed or unsigned and never both, or a float.
pub is_integer_type-signs :
    (t : AmunType)
    → (is_integer_type t ≡ (is_signed_integer_type t || is_unsigned_integer_type t))
      × ((is_signed_integer_type t && is_unsigned_integer_type t) ≡ false)
unfolding is_integer_type is_signed_integer_type is_unsigned_integer_type
is_integer_type-signs (AmunType.number integer_1) = (refl, refl)
is_integer_type-signs (AmunType.number _) = (refl, refl)
is_integer_type-signs _ = (refl, refl)
