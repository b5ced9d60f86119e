-- ===== src/Parser/Types.antt =====
-- src/amun_parser_types.cpp, `pares_types_directive` of src/amun_parser_directives.cpp and
-- `parse_generic_arguments_if_exists` of src/amun_parser.cpp: the types that the source writes.
use amun.Prelude.{
  ℕ, ◌+◌, ◌-◌, ◌==◌, Bool, false, not, Option, none, some, if◌then◌else◌, ◌++◌, [], ℤ, pos, negsuc,
  ◌^◌, length, ltb,
}
use amun.Prelude.Text.{Bytes, codes, equal}
use amun.Prelude.Decimal.{to_string}
use amun.Token.{Token}
use amun.Token.{
  token_at, token_fun, token_star, token_open_paren, token_close_paren, token_open_bracket,
  token_close_bracket, token_comma, token_smaller, token_greater, token_identifier, token_varargs,
}
use amun.ScopedMap.{find}
use amun.Types.{AmunType, Types, MaybeType, StructType, function_type, struct_type, size}
use amun.Types.Queries.{is_integer_type, is_void_type}
use amun.Types.Equality.{is_types_equals}
use amun.Types.Literal.{get_type_literal}
use amun.Mangle.{mangle_tuple_type}
use amun.AliasTable
use amun.AliasTable.{resolve_alias}
use amun.Ast.{append_type}
use amun.Parser.{
  Parse, pure, done, ◌>>=◌, ◌>>◌, gets, value, report_error, set_unknown_fields, modify_context,
  Enumeration,
}
use amun.Parser.Reading.{
  peek_current, peek_previous, consume_kind, assert_kind, advanced_token, when, repeat, again,
  leave, is_current_kind, is_source_available, is_not, ◌and_then◌, Test, choose,
}
use amun.Parser.Checks.{as_number, refuse_if, primitive_types, is_contains, number_of}
use amun.Parser.Calls.{Calls}

-- `parse_identifier_type` behind the maps of the context, and its last two cases.
unfoldable pub not_null : MaybeType → Option AmunType
not_null (MaybeType.shared type) = some type
not_null MaybeType.null = none

unfoldable pub resolve_type_alias : Bytes → Parse AmunType
resolve_type_alias type_literal = do
  s ← gets (λ s. s)
  let r = resolve_alias type_literal s.context.type_alias_table
  modify_context (λ c. record c { type_alias_table = r.0 })
  value (not_null r.1)

unfoldable pub resolve_local_type : Bytes → Parse AmunType
resolve_local_type type_literal = do
  s ← gets (λ s. s)
  if equal type_literal s.current_struct_name
      then (do set_unknown_fields (s.current_struct_unknown_fields + 1); pure AmunType.none)
      else if is_contains type_literal s.generic_parameters_names
      then pure (AmunType.generic_parameter type_literal)
      else if AliasTable.contains type_literal s.context.type_alias_table
      then resolve_type_alias type_literal
      else do
        current ← peek_current
        report_error current.position
            (codes "Cannot find type `" ++ (type_literal ++ codes "` in this scope"))

abbrev enum_element_type : Bytes → Enumeration → AmunType
enum_element_type name e = AmunType.enum_element name e.element_type

unfoldable pub resolve_type : Bytes → Parse AmunType
resolve_type type_literal = do
  s ← gets (λ s. s)
  choose (find type_literal primitive_types) pure (
      choose (find type_literal s.context.structures) (λ struct. pure (AmunType.struct struct))
        (choose (find type_literal s.context.enumerations)
          (λ enum. pure (enum_element_type type_literal enum)) (resolve_local_type type_literal)))

unfoldable pub parse_identifier_type : Parse AmunType
parse_identifier_type = do
  symbol_token ← consume_kind token_identifier (codes "Expect identifier as type")
  resolve_type symbol_token.literal

unfoldable pub parse_primary_type : Parse AmunType
parse_primary_type = when (is_current_kind token_identifier) parse_identifier_type (
    when (is_current_kind token_varargs)
      (do
        current ← peek_current
        report_error current.position (codes "Varargs not supported as function pointer parameter"))
      (do current ← peek_current; report_error current.position (codes "Expected type name")))

abbrev struct_is_generic : StructType → Bool
struct_is_generic (struct_type _ _ _ _ _ _ is_generic _) = is_generic

abbrev generic_count : StructType → ℕ
generic_count (struct_type _ _ _ parameters _ _ _ _) = length parameters

abbrev count_message : ℕ → ℕ → Bytes
count_message expected got =
    codes "Invalid number of generic parameters expect "
    ++ (to_string expected ++ (codes " but got " ++ to_string got))

-- The size of a fixed size array as the `size_t` that `std::atoi` gives; out of range `std::atoi` is not
-- defined.
unfoldable pub array_size : Option ℤ → Option ℕ
array_size (some (pos n)) = some n
array_size (some (negsuc n)) = some (2 ^ 64 - 1 - n)
array_size none = none

unfoldable pub as_struct : AmunType → Option StructType
as_struct (AmunType.struct struct) = some struct
as_struct _ = none

abbrev is_generic : Option StructType → Bool
is_generic (some struct) = struct_is_generic struct
is_generic none = false

-- An array type turned into a vector type.
unfoldable pub as_vector : AmunType → Option AmunType
as_vector (AmunType.static_array element_type size) =
    some (AmunType.static_vector element_type size)
as_vector _ = none

module _ (call : Calls) where
  -- `while (test) { push_back(parse_type()); if comma advance else break; }`
  unfoldable pub parse_types_while : Test → Parse Types
  parse_types_while test =
      repeat call.rounds test
        (λ types. do
          type ← call.parse_type
          when (is_current_kind token_comma) (advanced_token >> again (append_type types type))
              (leave (append_type types type)))
        Types.nil

  unfoldable pub parse_generic_arguments_if_exists : Parse Types
  parse_generic_arguments_if_exists =
      when (is_current_kind token_smaller)
        (do
          advanced_token
          generic_arguments ← parse_types_while (is_not (is_current_kind token_greater))
          assert_kind token_greater (codes "Expect > after generic arguments types")
          pure generic_arguments)
        (pure Types.nil)

  unfoldable pub parse_list_of_types : Parse Types
  parse_list_of_types = do
    assert_kind token_open_paren (codes "Expect `(` before types")
    types ←
        parse_types_while (is_source_available and_then is_not (is_current_kind token_close_paren))
    assert_kind token_close_paren (codes "Expect `)` after types")
    pure types

  unfoldable pub parse_pointer_to_type : Parse AmunType
  parse_pointer_to_type = do
    assert_kind token_star (codes "Pointer type must be started with *")
    base_type ← call.parse_type_with_prefix
    pure (AmunType.pointer base_type)

  unfoldable pub parse_function_ptr_type : Parse AmunType
  parse_function_ptr_type = do
    assert_kind token_fun (codes "Expect `fun` keyword at the start of function ptr")
    paren ← peek_current
    parameters_types ← parse_list_of_types
    return_type ← call.parse_type
    pure (
        AmunType.pointer (
          AmunType.function (
            function_type paren parameters_types return_type 0 false MaybeType.null false false
              [])))

  unfoldable pub parse_tuple_type : Parse AmunType
  parse_tuple_type = do
    paren ← peek_current
    field_types ← parse_list_of_types
    refuse_if (ltb (size field_types) 2) paren.position
        (codes "Tuple type must has at least 2 types")
    pure (AmunType.tuple (mangle_tuple_type field_types) field_types)

  -- The size behind the bracket, an integer.
  unfoldable pub parse_array_size : Token → Parse ℕ
  parse_array_size bracket = do
    size_expression ← call.parse_expression
    size ←
        choose (as_number size_expression) pure
          (report_error bracket.position (codes "Array size must be an integer constants"))
    refuse_if (not (is_integer_type size.1)) bracket.position
        (codes "Array size must be an integer constants")
    value (array_size (number_of size.0.literal))

  unfoldable pub parse_fixed_size_array_type : Parse AmunType
  parse_fixed_size_array_type = do
    bracket ← consume_kind token_open_bracket (codes "Expect [ for fixed size array type")
    when (is_current_kind token_close_bracket)
        (do
          current ← peek_current
          report_error current.position (codes "Fixed array type must have implicit size [n]"))
        done
    number_value ← parse_array_size bracket
    assert_kind token_close_bracket (codes "Expect ] after array size.")
    element_type ← call.parse_type
    previous ← peek_previous
    refuse_if (is_void_type element_type) previous.position
        (codes "Can't declare array with incomplete type 'void'")
    refuse_if (is_types_equals element_type AmunType.none) previous.position
        (codes "Can't declare array with incomplete type")
    pure (AmunType.static_array element_type number_value)

  -- The arguments of a generic struct, in front of `<`.
  unfoldable pub parse_generic_struct_arguments : StructType → Parse AmunType
  parse_generic_struct_arguments struct = do
    smaller_token ← peek_current
    refuse_if (not (struct_is_generic struct)) smaller_token.position
        (codes "Non generic struct type don't accept any types parameters")
    generic_parameters ← parse_generic_arguments_if_exists
    refuse_if (not (generic_count struct == size generic_parameters)) smaller_token.position
        (count_message (generic_count struct) (size generic_parameters))
    pure (AmunType.generic_struct struct generic_parameters)

  unfoldable pub parse_generic_struct_type : Parse AmunType
  parse_generic_struct_type = do
    primary_type ← parse_primary_type
    when (is_current_kind token_smaller)
        (choose (as_struct primary_type) parse_generic_struct_arguments (do
          previous ← peek_previous
          report_error previous.position (codes "Only structures can accept generic parameters")))
        (do
          struct_name ← peek_previous
          refuse_if (is_generic (as_struct primary_type)) struct_name.position (
              codes "Generic struct type must be used with parameters types "
              ++ (struct_name.literal ++ codes "<..>"))
          pure primary_type)

  unfoldable pub parse_type_with_postfix : Parse AmunType
  parse_type_with_postfix = do
    type ← parse_generic_struct_type
    when (is_current_kind token_star)
        (do
          previous ← peek_previous
          report_error previous.position
              (codes "In pointer type `*` must be before the type like *" ++ get_type_literal type))
        (pure type)

  unfoldable pub parse_type_with_prefix : Parse AmunType
  parse_type_with_prefix = when (is_current_kind token_fun) parse_function_ptr_type (
      when (is_current_kind token_star) parse_pointer_to_type (
        when (is_current_kind token_open_paren) parse_tuple_type (
          when (is_current_kind token_open_bracket) parse_fixed_size_array_type
            parse_type_with_postfix)))

  abbrev is_directive : Bytes → Test
  is_directive name s token = equal token.literal name

  unfoldable pub pares_types_directive : Parse AmunType
  pares_types_directive = do
    hash_token ← consume_kind token_at (codes "Expect `@` before directive name")
    when (is_current_kind token_identifier and_then is_directive (codes "vec"))
        (do
          advanced_token
          type ← call.parse_type
          choose (as_vector type) pure
              (report_error hash_token.position (codes "Expect array type after @vec")))
        (report_error hash_token.position (codes "Expect identifier as directive name"))

  unfoldable pub parse_type : Parse AmunType
  parse_type = when (is_current_kind token_at) pares_types_directive parse_type_with_prefix
