-- ===== src/Mangle.antt =====
-- src/amun_name_mangle.cpp: the names that overloaded operators and instances of generic functions
-- get. `operator[]` on a map gives the empty text for a key that it does not hold.
pub mod Laws
pub mod Tuples
mod Tests
use amun.Prelude.{List, [], ◌++◌, Option, none, some}
use amun.Prelude.Text.{Bytes, codes}
use amun.Prelude.Decimal.{to_string}
use amun.Token.{TokenKind}
use amun.Token.Operators.{overloading_operator_literal}
use amun.Types.{AmunType, Types, NumberKind, nil, cons, struct_name}
use amun.Types.{
  integer_1, integer_8, integer_16, integer_32, integer_64, u_integer_8, u_integer_16, u_integer_32,
  u_integer_64, float_32, float_64,
}

abbrev pub number_type_managler : NumberKind → Bytes
number_type_managler integer_1 = codes "i1"
number_type_managler integer_8 = codes "i8"
number_type_managler integer_16 = codes "i16"
number_type_managler integer_32 = codes "i32"
number_type_managler integer_64 = codes "i64"
number_type_managler u_integer_8 = codes "u8"
number_type_managler u_integer_16 = codes "u16"
number_type_managler u_integer_32 = codes "u32"
number_type_managler u_integer_64 = codes "u64"
number_type_managler float_32 = codes "f32"
number_type_managler float_64 = codes "f64"

unfoldable mutual
  pub mangle_type : AmunType → Bytes
  mangle_type (AmunType.number kind) = number_type_managler kind
  mangle_type (AmunType.pointer base_type) = codes "p" ++ mangle_type base_type
  mangle_type (AmunType.static_array element_type size) =
      codes "_a" ++ (to_string size ++ mangle_type element_type)
  mangle_type (AmunType.enum_element enum_name _) = enum_name
  mangle_type (AmunType.struct s) = struct_name s
  mangle_type (AmunType.tuple _ fields_types) = codes "_tuple_" ++ mangle_types fields_types
  mangle_type _ = []

  pub mangle_types : Types → Bytes
  mangle_types nil = []
  mangle_types (cons type types) = mangle_type type ++ mangle_types types

unfoldable pub mangle_tuple_type : Types → Bytes
mangle_tuple_type fields_types = codes "_tuple_" ++ mangle_types fields_types

abbrev pub text_or_empty : Option Bytes → Bytes
text_or_empty (some text) = text
text_or_empty none = []

unfoldable pub mangle_operator_function : TokenKind → Types → Bytes
unfolding overloading_operator_literal
mangle_operator_function kind parameters =
    codes "_operator_"
    ++ (text_or_empty (overloading_operator_literal kind) ++ mangle_types parameters)
