-- ===== src/Types/Literal.antt =====
-- src/amun_type.cpp: how a type is spelled.
use amun.Prelude.{[], ◌++◌}
use amun.Prelude.Text.{Bytes, codes}
use amun.Prelude.Decimal.{to_string}
use amun.Types.{AmunType, Types, FunctionType, NumberKind, struct_name, function_type, nil, cons}
use amun.Types.{
  integer_1, integer_8, integer_16, integer_32, integer_64, u_integer_8, u_integer_16, u_integer_32,
  u_integer_64, float_32, float_64,
}

unfoldable pub get_number_kind_literal : NumberKind → Bytes
get_number_kind_literal integer_1 = codes "Int1"
get_number_kind_literal integer_8 = codes "Int8"
get_number_kind_literal integer_16 = codes "Int16"
get_number_kind_literal integer_32 = codes "Int32"
get_number_kind_literal integer_64 = codes "Int64"
get_number_kind_literal u_integer_8 = codes "UInt8"
get_number_kind_literal u_integer_16 = codes "UInt16"
get_number_kind_literal u_integer_32 = codes "UInt32"
get_number_kind_literal u_integer_64 = codes "UInt64"
get_number_kind_literal float_32 = codes "Float32"
get_number_kind_literal float_64 = codes "Float64"

-- `join_literals` puts a separator behind all but the last; `padded_literals` a space on both sides.
unfoldable mutual
  pub get_type_literal : AmunType → Bytes
  get_type_literal (AmunType.number kind) = get_number_kind_literal kind
  get_type_literal (AmunType.static_array element_type size) =
      codes "[" ++ (to_string size ++ (codes "]" ++ get_type_literal element_type))
  get_type_literal (AmunType.static_vector element_type size) =
      codes "@vec[" ++ (to_string size ++ (codes "]" ++ get_type_literal element_type))
  get_type_literal (AmunType.pointer base_type) = codes "*" ++ get_type_literal base_type
  get_type_literal (AmunType.function f) = function_literal f
  get_type_literal (AmunType.struct s) = struct_name s
  get_type_literal (AmunType.tuple name fields_types) =
      codes "(" ++ (join_literals (codes ", ") fields_types ++ codes ")")
  get_type_literal (AmunType.enum name values element_type) = name.literal
  get_type_literal (AmunType.enum_element enum_name element_type) = enum_name
  get_type_literal (AmunType.generic_struct s parameters) =
      struct_name s ++ (codes "<" ++ (join_literals (codes ",") parameters ++ codes ">"))
  get_type_literal (AmunType.generic_parameter name) = name
  get_type_literal AmunType.none = codes "none"
  get_type_literal AmunType.void = codes "void"
  get_type_literal AmunType.nill = codes "null"

  pub function_literal : FunctionType → Bytes
  function_literal (function_type _ parameters return_type _ _ _ _ _ _) =
      codes "(" ++ (padded_literals parameters ++ (codes ") -> " ++ get_type_literal return_type))

  pub join_literals : Bytes → Types → Bytes
  join_literals separator nil = []
  join_literals separator (cons t nil) = get_type_literal t
  join_literals separator (cons t (cons u us)) =
      get_type_literal t ++ (separator ++ join_literals separator (cons u us))

  pub padded_literals : Types → Bytes
  padded_literals nil = []
  padded_literals (cons t ts) =
      codes " " ++ (get_type_literal t ++ (codes " " ++ padded_literals ts))
