-- ===== src/Parser/Checks.antt =====
-- src/amun_parser.cpp: the checks of names, numbers and operators, which read no token but a
-- superfluous semicolon. `std::stoi` is `number_of`, over the texts of number tokens: a decimal number
-- with a sign or without; where it throws, there is no number.
use amun.Prelude.{
  ℕ, zero, suc, ◌+◌, ◌==◌, Bool, true, false, not, ◌&&◌, ◌||◌, List, [], ◌∷◌, ◌++◌, Option, none,
  some, if◌then◌else◌, ℤ, pos, negsuc, leb,
}
use amun.Prelude.Text.{Bytes, codes, equal}
use amun.Prelude.Decimal.{is_decimal, decimal_value}
use amun.Prelude.{take_while}
use amun.Token.{TokenKind, TokenSpan, Token, kind_eq}
use amun.Token.{
  token_int, token_int1, token_int8, token_int16, token_int32, token_int64, token_uint8,
  token_uint16, token_uint32, token_uint64, token_float, token_float32, token_float64,
  token_undefined, token_minus, token_semicolon,
}
use amun.Token.Literals.{token_kind_literal}
use amun.Token.Operators.{TwoTokensOperator, two_tokens_operators}
use amun.ScopedMap.{contains, find}
use amun.Types.{AmunType, Types, NumberKind, FunctionType, function_type}
use amun.Types.{
  integer_1, integer_8, integer_16, integer_32, integer_64, u_integer_8, u_integer_16, u_integer_32,
  u_integer_64, float_32, float_64,
}
use amun.AliasTable
use amun.Ast.{Expression}
use amun.Ast.{
  character_expression, string_expression, number_expression, boolean_expression,
  prefix_unary_expression,
}
use amun.Parser.{
  value, Parse, Action, FunctionKind, function_kind_eq, prefix_function, infix_function,
  postfix_function, pure, done, ◌>>=◌, ◌>>◌, gets, report_error, report_warning,
  set_generic_parameters_names, Context,
}
use amun.Parser.Reading.{
  peek_current, peek_previous, peek_and_advance_token, when, is_current_kind, choose,
}

-- include/amun_basic.hpp
unfoldable pub is_contains : Bytes → List Bytes → Bool
is_contains element [] = false
is_contains element (x ∷ xs) = equal x element || is_contains element xs

abbrev number_type : NumberKind → AmunType
number_type kind = AmunType.number kind

-- include/amun_parser.hpp
unfoldable pub primitive_types : List (Bytes × AmunType)
primitive_types =
    (codes "int1", number_type integer_1)
    ∷ (codes "bool", number_type integer_1)
    ∷ (codes "char", number_type integer_8)
    ∷ (codes "uchar", number_type u_integer_8)
    ∷ (codes "int8", number_type integer_8)
    ∷ (codes "int16", number_type integer_16)
    ∷ (codes "int32", number_type integer_32)
    ∷ (codes "int64", number_type integer_64)
    ∷ (codes "uint8", number_type u_integer_8)
    ∷ (codes "uint16", number_type u_integer_16)
    ∷ (codes "uint32", number_type u_integer_32)
    ∷ (codes "uint64", number_type u_integer_64)
    ∷ (codes "float32", number_type float_32)
    ∷ (codes "float64", number_type float_64)
    ∷ (codes "void", AmunType.void)
    ∷ []

abbrev negated : ℕ → ℤ
negated zero = pos 0
negated (suc n) = negsuc n

abbrev digits_of : Bytes → Option ℕ
digits_of [] = none
digits_of (c ∷ cs) =
    if is_decimal c then some (decimal_value 0 (take_while is_decimal (c ∷ cs))) else none

abbrev below : ℕ → (ℕ → ℤ) → Option ℕ → Option ℤ
below limit sign (some n) = if leb n limit then some (sign n) else none
below limit sign none = none

unfoldable pub number_of : Bytes → Option ℤ
number_of [] = none
number_of (c ∷ cs) =
    if c == b'-'
    then below 2147483648 negated (digits_of cs)
    else below 2147483647 pos (digits_of (c ∷ cs))

-- `if (condition) { report_error(position, message); throw "Stop"; }`
unfoldable pub refuse_if : Bool → TokenSpan → Bytes → Action
refuse_if condition position message = if condition then report_error position message else done

unfoldable pub check_generic_parameter_name : Token → Action
check_generic_parameter_name name = do
  s ← gets (λ s. s)
  refuse_if (contains name.literal primitive_types) name.position
      (codes "primitives type can't be used as generic parameter name " ++ name.literal)
  refuse_if (contains name.literal s.context.structures) name.position
      (codes "Struct name can't be used as generic parameter name " ++ name.literal)
  refuse_if (contains name.literal s.context.enumerations) name.position
      (codes "Enum name can't be used as generic parameter name " ++ name.literal)
  refuse_if (AliasTable.contains name.literal s.context.type_alias_table) name.position
      (codes "You can't use alias as generic parameter name " ++ name.literal)
  refuse_if (is_contains name.literal s.generic_parameters_names) name.position
      (codes "You already declared generic parameter with name " ++ name.literal)
  set_generic_parameters_names (name.literal ∷ s.generic_parameters_names)

unfoldable pub check_function_kind_paramters_count : FunctionKind → ℕ → TokenSpan → Action
check_function_kind_paramters_count kind count span = do
  refuse_if (function_kind_eq kind prefix_function && not (count == 1)) span
      (codes "Prefix function must have exactly one parameter")
  refuse_if (function_kind_eq kind infix_function && not (count == 2)) span
      (codes "Infix function must have exactly Two parameter")
  refuse_if (function_kind_eq kind postfix_function && not (count == 1)) span
      (codes "Postfix function must have exactly one parameter")

-- `dynamic_pointer_cast<NumberExpression>`, its `value` and its `type`.
unfoldable pub as_number : Expression → Option (Token × AmunType)
as_number (number_expression value type) = some (value, type)
as_number _ = none

unfoldable pub is_number : Expression → Bool
is_number (number_expression _ _) = true
is_number _ = false

-- The expressions that a constant may have.
unfoldable pub is_compiletime_constant : Expression → Bool
is_compiletime_constant (character_expression _) = true
is_compiletime_constant (string_expression _) = true
is_compiletime_constant (number_expression _ _) = true
is_compiletime_constant (boolean_expression _) = true
is_compiletime_constant (prefix_unary_expression operator_token right) =
    is_number right && kind_eq operator_token.kind token_minus
is_compiletime_constant _ = false

unfoldable pub check_compiletime_constants_expression : Expression → TokenSpan → Action
check_compiletime_constants_expression expression position =
    refuse_if (not (is_compiletime_constant expression)) position
      (codes "Value must be a compile time constants")

-- The first operator of two tokens that the previous and the current one spell with a space.
unfoldable pub spelled : TokenKind → TokenKind → List TwoTokensOperator → Option TwoTokensOperator
spelled first second [] = none
spelled first second (op ∷ ops) =
    if kind_eq first op.first && kind_eq second op.second then some op else spelled first second ops

-- The message for two tokens that spell an operator. The literals are formatted by `%s`, which is not
-- defined on the null pointer of a kind without a literal.
unfoldable pub unexpected_message : TwoTokensOperator → Parse Bytes
unexpected_message op = do
  unexpected ← value (token_kind_literal op.second)
  correct ← value (token_kind_literal op.both)
  pure (
      codes "unexpected `"
      ++ (unexpected ++ (codes "`, do you means `" ++ (correct ++ codes "`?"))))

-- A `std::string` is made of the literal first: for a kind without one that throws `std::logic_error`.
unfoldable pub unexpected_token_error {ℓ} : {A : Type ℓ} → Parse A
unexpected_token_error = do
  current ← peek_current
  token_literal ← value (token_kind_literal current.kind)
  refuse_if (kind_eq current.kind token_undefined) current.position
      (codes "`---` used only in variable declaraion to represent an undefined value")
  previous ← peek_previous
  choose (spelled previous.kind current.kind two_tokens_operators)
      (λ op. do message ← unexpected_message op; report_error current.position message)
      (report_error current.position
        (codes "expected expression, found `" ++ (token_literal ++ codes "`")))

unfoldable pub check_unnecessary_semicolon_warning : Action
check_unnecessary_semicolon_warning =
    when (is_current_kind token_semicolon)
      (do
        semicolon ← peek_and_advance_token
        warns ← gets (λ s. s.context.should_report_warns)
        if warns
            then report_warning semicolon.position (codes "remove unnecessary semicolon")
            else done)
      done

unfoldable pub kind_of_number : TokenKind → Option NumberKind
kind_of_number token_int = some integer_64
kind_of_number token_int1 = some integer_1
kind_of_number token_int8 = some integer_8
kind_of_number token_int16 = some integer_16
kind_of_number token_int32 = some integer_32
kind_of_number token_int64 = some integer_64
kind_of_number token_uint8 = some u_integer_8
kind_of_number token_uint16 = some u_integer_16
kind_of_number token_uint32 = some u_integer_32
kind_of_number token_uint64 = some u_integer_64
kind_of_number token_float = some float_64
kind_of_number token_float32 = some float_32
kind_of_number token_float64 = some float_64
kind_of_number _ = none

unfoldable pub get_number_kind : TokenKind → Parse NumberKind
get_number_kind token =
    choose (kind_of_number token) pure (do
      current ← peek_current
      report_error current.position (codes "Token kind is not a number"))

abbrev pub has_kind : FunctionKind → Option FunctionKind → Bool
has_kind kind (some k) = function_kind_eq k kind
has_kind kind none = false

abbrev pub is_function_declaration_kind : Bytes → FunctionKind → Context → Bool
is_function_declaration_kind fun_name kind context = has_kind kind (find fun_name context.functions)

abbrev has_space : Bytes → Bool
has_space [] = false
has_space (c ∷ cs) = c == b' ' || has_space cs

unfoldable pub is_valid_intrinsic_name : Bytes → Bool
is_valid_intrinsic_name [] = false
is_valid_intrinsic_name (c ∷ cs) = not (has_space (c ∷ cs))

-- `resolve_field_self_reference`: the new type, and the references that it resolves, by which the code
-- lowers `current_struct_unknown_fields`. `resolve_types` is the loop over a vector.
unfoldable mutual
  pub resolve_field_self_reference : AmunType → AmunType → AmunType × ℕ
  resolve_field_self_reference current_struct_ptr_type (AmunType.pointer AmunType.none) =
      (current_struct_ptr_type, 1)
  resolve_field_self_reference current_struct_ptr_type (AmunType.pointer base_type) =
      let r = resolve_field_self_reference current_struct_ptr_type base_type in
      (AmunType.pointer r.0, r.1)
  resolve_field_self_reference current_struct_ptr_type (AmunType.static_array element_type size) =
      let r = resolve_field_self_reference current_struct_ptr_type element_type in
      (AmunType.static_array r.0 size, r.1)
  resolve_field_self_reference current_struct_ptr_type (AmunType.function f) =
      let r = resolve_function current_struct_ptr_type f in (AmunType.function r.0, r.1)
  resolve_field_self_reference current_struct_ptr_type (AmunType.tuple name fields_types) =
      let r = resolve_types current_struct_ptr_type fields_types in (AmunType.tuple name r.0, r.1)
  resolve_field_self_reference current_struct_ptr_type field_type = (field_type, 0)

  pub resolve_function : AmunType → FunctionType → FunctionType × ℕ
  resolve_function p (function_type name parameters return_type count varargs type intrinsic g gs) =
      let r = resolve_field_self_reference p return_type in
      let rs = resolve_types p parameters in
      (function_type name rs.0 r.0 count varargs type intrinsic g gs, r.1 + rs.1)

  pub resolve_types : AmunType → Types → Types × ℕ
  resolve_types p Types.nil = (Types.nil, 0)
  resolve_types p (Types.cons type types) =
      let r = resolve_field_self_reference p type in
      let rs = resolve_types p types in (Types.cons r.0 rs.0, r.1 + rs.1)
