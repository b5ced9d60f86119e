-- ===== src/Parser/Postfix.antt =====
-- src/amun_parser.cpp: the calls, the accesses and the unary operators, up to `parse_infix_call_expression`.
use amun.Prelude.{
  ℕ, ◌%◌, ltb, ◌-◌, ℤ, pos, negsuc, Bool, List, Option, none, some, if◌then◌else◌, length,
}
use amun.Prelude.Text.{Bytes, codes, equal}
use amun.Prelude.Decimal.{to_string, decimal_value}
use amun.Token.{Token}
use amun.Token.{
  token_open_paren, token_close_paren, token_open_bracket, token_close_bracket, token_identifier,
  token_int, token_dot, token_smaller, token_plus_plus, token_minus_minus,
}
use amun.Token.Operators.{unary_operators}
use amun.ScopedMap.{find}
use amun.Types.{AmunType, Types, integer_64}
use amun.Ast.{Expression, Expressions}
use amun.Ast.{
  number_expression, call_expression, dot_expression, dot_index_expression, index_expression,
  prefix_unary_expression, postfix_unary_expression,
}
use amun.Parser.{
  value, Parse, Enumeration, pure, ◌>>=◌, ◌>>◌, gets, report_error, prefix_function,
  postfix_function, infix_function,
}
use amun.Parser.Reading.{
  Test, peek_current, peek_and_advance_token, consume_kind, assert_kind, when, choose, repeat_while,
  again, is_current_kind, kind_in, is_not, ◌and_then◌, ◌or_else◌,
}
use amun.Parser.Calls.{Calls}
use amun.Parser.Types.{parse_generic_arguments_if_exists}
use amun.Parser.Primary.{parse_literal_expression, parse_values_while}
use amun.Parser.Operands.{
  names_function, as_literal, names_any_function, parse_lambda_argument,
  parse_initializer_expression,
}

-- `<` behind the name of a function. The loop ends at `<` behind another name too, by its `return`.
unfoldable pub begins_generic_call : Expression → Test
begins_generic_call expression s token = names_any_function (as_literal expression) s

unfoldable pub continues_access : Expression → Test
continues_access expression =
    is_current_kind token_dot
    or_else is_current_kind token_open_paren
    or_else is_current_kind token_open_bracket
    or_else (is_current_kind token_smaller and_then begins_generic_call expression)

abbrev find_enumeration : Option Token → List (Bytes × Enumeration) → Option Enumeration
find_enumeration (some name) enumerations = find name.literal enumerations
find_enumeration none enumerations = none

-- `str_to_int` on the digits of a token. Above the bound of `int64` it overflows, which is undefined.
unfoldable pub str_to_int : Bytes → Option ℕ
str_to_int digits =
    let n = decimal_value 0 digits in if ltb n 9223372036854775808 then some n else none

-- The conversion of an `int64` that is not negative to the `int` of a field.
unfoldable pub to_int : ℕ → ℤ
to_int n = let r = n % 4294967296 in if ltb r 2147483648 then pos r else negsuc (4294967295 - r)

module _ (call : Calls) where
  unfoldable pub parse_postfix_call_expression : Parse Expression
  parse_postfix_call_expression = do
    expression ← parse_initializer_expression call
    when (is_current_kind token_identifier and_then names_function postfix_function)
        (do
          token ← peek_current
          name ← parse_literal_expression
          generic_arguments ← parse_generic_arguments_if_exists call
          pure (
              call_expression token name (Expressions.cons expression Expressions.nil)
                generic_arguments))
        (pure expression)

  -- `Enum.count` behind the name.
  unfoldable pub parse_enumeration_attribute : Enumeration → Parse Expression
  parse_enumeration_attribute enum = do
    dot_token ← peek_and_advance_token
    attribute ← consume_kind token_identifier (codes "Expect attribute name for enum")
    if equal attribute.literal (codes "count")
        then pure (
            number_expression
              (record {
                kind = token_int;
                position = attribute.position;
                literal = to_string (length enum.values);
              })
              (AmunType.number integer_64))
        else report_error attribute.position (codes "Un supported attribute for enumeration type")

  unfoldable pub parse_enumeration_attribute_expression : Parse Expression
  parse_enumeration_attribute_expression = do
    expression ← parse_postfix_call_expression
    enumerations ← gets (λ s. s.context.enumerations)
    when (is_current_kind token_dot)
        (choose (find_enumeration (as_literal expression) enumerations) parse_enumeration_attribute
          (pure expression))
        (pure expression)

  -- One access or call: the rounds of the loop, each with the kind that it begins with.
  unfoldable pub parse_dot : Expression → Parse (Bool × Expression)
  parse_dot expression = do
    dot_token ← peek_and_advance_token
    when (is_current_kind token_identifier)
        (do
          field_name ← consume_kind token_identifier (codes "Expect literal as field name")
          again (dot_expression dot_token expression field_name))
        (when (is_current_kind token_int)
          (do
            field_name ← consume_kind token_int (codes "Expect literal as field name")
            index ← value (str_to_int field_name.literal)
            again (dot_index_expression dot_token expression field_name (to_int index)))
          (report_error dot_token.position (
            codes
              "DotExpression `.` must followed by symnol or integer for struct or tuple access")))

  unfoldable pub parse_arguments : Bytes → Parse Expressions
  parse_arguments message = do
    arguments ← parse_values_while call (is_not (is_current_kind token_close_paren)) Expressions.nil
    assert_kind token_close_paren message
    (parse_lambda_argument call) arguments

  unfoldable pub parse_generic_call : Expression → Parse (Bool × Expression)
  parse_generic_call expression = do
    position ← peek_current
    generic_arguments ← parse_generic_arguments_if_exists call
    assert_kind token_open_paren (codes "Expect ( after in the end of function call")
    arguments ← parse_arguments (codes "Expect ) after in the end of function call")
    again (call_expression position expression arguments generic_arguments)

  unfoldable pub parse_call : Expression → Parse (Bool × Expression)
  parse_call expression = do
    position ← peek_and_advance_token
    arguments ← parse_arguments (codes "Expect ) after in the end of call expression")
    again (call_expression position expression arguments Types.nil)

  unfoldable pub parse_index : Expression → Parse (Bool × Expression)
  parse_index expression = do
    position ← peek_and_advance_token
    index ← call.parse_expression
    assert_kind token_close_bracket (codes "Expect ] after index value")
    again (index_expression position expression index)

  unfoldable pub parse_call_or_access_expression : Parse Expression
  parse_call_or_access_expression = do
    expression ← parse_enumeration_attribute_expression
    repeat_while call.rounds continues_access
        (λ e. when (is_current_kind token_dot) (parse_dot e) (
          when (is_current_kind token_smaller) (parse_generic_call e)
            (when (is_current_kind token_open_paren) (parse_call e) (parse_index e))))
        expression

  unfoldable pub parse_postfix_increment_or_decrement : Parse Expression
  parse_postfix_increment_or_decrement = do
    expression ← parse_call_or_access_expression
    when (is_current_kind token_plus_plus or_else is_current_kind token_minus_minus)
        (do token ← peek_and_advance_token; pure (postfix_unary_expression token expression))
        (pure expression)

  unfoldable pub parse_prefix_call_expression : Parse Expression
  parse_prefix_call_expression =
      when (is_current_kind token_identifier and_then names_function prefix_function)
        (do
          token ← peek_current
          name ← parse_literal_expression
          generic_arguments ← parse_generic_arguments_if_exists call
          argument ← call.parse_prefix_expression
          pure (
              call_expression token name (Expressions.cons argument Expressions.nil)
                generic_arguments))
        parse_postfix_increment_or_decrement

  unfoldable pub parse_prefix_expression : Parse Expression
  parse_prefix_expression =
      when
        (kind_in unary_operators
          or_else is_current_kind token_plus_plus
          or_else is_current_kind token_minus_minus)
        (do
          token ← peek_and_advance_token
          right ← call.parse_prefix_expression
          pure (prefix_unary_expression token right))
        parse_prefix_call_expression

  -- The generic arguments are read and not kept.
  unfoldable pub parse_infix_call_expression : Parse Expression
  parse_infix_call_expression = do
    expression ← parse_prefix_expression
    when (is_current_kind token_identifier and_then names_function infix_function)
        (do
          name_token ← peek_current
          function_name ← parse_literal_expression
          generic_arguments ← parse_generic_arguments_if_exists call
          right ← call.parse_infix_call_expression
          pure (
              call_expression name_token function_name
                (Expressions.cons expression (Expressions.cons right Expressions.nil)) Types.nil))
        (pure expression)
