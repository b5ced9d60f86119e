-- ===== src/Types.antt =====
-- include/amun_type.hpp: the types of the language. A shared pointer to a type is the type itself: the
-- functions modelled here look into a struct no further than its name, so a struct that points to
-- itself is cut there. A pointer that may be null is `MaybeType`.
pub mod Literal
pub mod Equality
pub mod Queries
pub mod Cast
pub mod Limits
pub mod Key
pub mod Laws
mod Tests
use amun.Prelude.{ℕ, suc, Bool, ◌==◌, List, ℤ}
use amun.Prelude.Text.{Bytes}
use amun.Token.{Token}

pub data TypeKind : Type 0 where
  number pointer function static_array static_vector struct tuple enum enum_element : TypeKind
  generic_parameter generic_struct none void nill : TypeKind

abbrev pub type_kind_value : TypeKind → ℕ
type_kind_value number = 0
type_kind_value pointer = 1
type_kind_value function = 2
type_kind_value static_array = 3
type_kind_value static_vector = 4
type_kind_value struct = 5
type_kind_value tuple = 6
type_kind_value enum = 7
type_kind_value enum_element = 8
type_kind_value generic_parameter = 9
type_kind_value generic_struct = 10
type_kind_value none = 11
type_kind_value void = 12
type_kind_value nill = 13

abbrev pub type_kind_eq : TypeKind → TypeKind → Bool
type_kind_eq a b = type_kind_value a == type_kind_value b

pub data NumberKind : Type 0 where
  integer_1 integer_8 integer_16 integer_32 integer_64 : NumberKind
  u_integer_8 u_integer_16 u_integer_32 u_integer_64 float_32 float_64 : NumberKind

abbrev pub number_kind_value : NumberKind → ℕ
number_kind_value integer_1 = 0
number_kind_value integer_8 = 1
number_kind_value integer_16 = 2
number_kind_value integer_32 = 3
number_kind_value integer_64 = 4
number_kind_value u_integer_8 = 5
number_kind_value u_integer_16 = 6
number_kind_value u_integer_32 = 7
number_kind_value u_integer_64 = 8
number_kind_value float_32 = 9
number_kind_value float_64 = 10

abbrev pub number_kind_eq : NumberKind → NumberKind → Bool
number_kind_eq a b = number_kind_value a == number_kind_value b

-- `Types` is a vector of types. A `static_vector` holds the element type and the size of its array.
mutual
  pub data AmunType : Type 0 where
    number : NumberKind → AmunType
    pointer : AmunType → AmunType
    function : FunctionType → AmunType
    static_array : AmunType → ℕ → AmunType
    static_vector : AmunType → ℕ → AmunType
    struct : StructType → AmunType
    tuple : Bytes → Types → AmunType
    enum : Token → List (Bytes × ℤ) → AmunType → AmunType
    enum_element : Bytes → AmunType → AmunType
    generic_parameter : Bytes → AmunType
    generic_struct : StructType → Types → AmunType
    none void nill : AmunType

  pub data Types : Type 0 where
    nil : Types
    cons : AmunType → Types → Types

  pub data MaybeType : Type 0 where
    null : MaybeType
    shared : AmunType → MaybeType

  -- name, parameters, return_type, implicit_parameters_count, has_varargs, varargs_type,
  -- is_intrinsic, is_generic, generic_names
  pub data FunctionType : Type 0 where
    function_type :
        Token → Types → AmunType → ℕ → Bool → MaybeType → Bool → Bool → List Bytes → FunctionType

  -- name, fields_names, fields_types, generic_parameters, generic_parameters_types, is_packed,
  -- is_generic, is_extern
  pub data StructType : Type 0 where
    struct_type : Bytes → List Bytes → Types → List Bytes → Types → Bool → Bool → Bool → StructType

abbrev pub type_kind : AmunType → TypeKind
type_kind (number _) = TypeKind.number
type_kind (pointer _) = TypeKind.pointer
type_kind (function _) = TypeKind.function
type_kind (static_array _ _) = TypeKind.static_array
type_kind (static_vector _ _) = TypeKind.static_vector
type_kind (struct _) = TypeKind.struct
type_kind (tuple _ _) = TypeKind.tuple
type_kind (enum _ _ _) = TypeKind.enum
type_kind (enum_element _ _) = TypeKind.enum_element
type_kind (generic_parameter _) = TypeKind.generic_parameter
type_kind (generic_struct _ _) = TypeKind.generic_struct
type_kind none = TypeKind.none
type_kind void = TypeKind.void
type_kind nill = TypeKind.nill

abbrev pub struct_name : StructType → Bytes
struct_name (struct_type name _ _ _ _ _ _ _) = name

abbrev pub size : Types → ℕ
size nil = 0
size (cons _ ts) = suc (size ts)
