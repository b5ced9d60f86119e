-- ===== src/Parser/Levels.antt =====
-- src/amun_parser.cpp: the binary operators by their precedence, from `parse_enum_access_expression` up to
-- `parse_expression`. The eight loops of one shape are `parse_operators`.
use amun.Prelude.{Bool, false, Option, none, some, ◌++◌, []}
use amun.Prelude.Text.{codes}
use amun.Token.{Token, TokenKind}
use amun.Token.{
  token_colon_colon, token_identifier, token_star, token_slash, token_percent, token_plus,
  token_minus, token_left_shift, token_right_shift, token_greater, token_greater_equal,
  token_smaller, token_smaller_equal, token_equal_equal, token_bang_equal, token_or, token_xor,
  token_and, token_and_and, token_or_or,
}
use amun.Token.Operators.{
  assignments_operators, assignments_binary_operators, assignments_bitwise_operators,
}
use amun.ScopedMap.{find}
use amun.Types.{AmunType}
use amun.Ast.{Expression}
use amun.Ast.{
  enum_access_expression, binary_expression, bitwise_expression, comparison_expression,
  logical_expression, assign_expression,
}
use amun.Parser.{Parse, Enumeration, pure, ◌>>=◌, ◌>>◌, gets, report_error}
use amun.Parser.Reading.{
  Test, peek_and_advance_token, consume_kind, advanced_token, when, choose, repeat, again,
  is_current_kind, kind_in, ◌or_else◌, is_right_shift_operator,
}
use amun.Parser.Calls.{Calls}
use amun.Parser.Postfix.{parse_infix_call_expression}
use amun.Parser.Operands.{as_literal}

-- `is_right_shift_operator(peek_current(), peek_next())`
abbrev pub followed_by_greater : Token → Option Token → Bool
followed_by_greater current (some next) = is_right_shift_operator current next
followed_by_greater current none = false

unfoldable pub at_right_shift : Test
at_right_shift s token = followed_by_greater token s.next_token

abbrev pub Combine : Type 0
Combine = Expression → Token → Expression → Expression

-- A comparison of a comparison: `a < b < c` stands for `(a < b) && (b < c)`.
unfoldable pub compare_with : Combine
compare_with (comparison_expression left left_op new_left) op right =
    logical_expression (comparison_expression left left_op new_left)
      (record { kind = token_and_and; position = op.position; literal = [] })
      (comparison_expression new_left op right)
compare_with expression op right = comparison_expression expression op right

-- The expression that an assignment gives for its operator: `a += b` is `a = a + b`.
abbrev with_kind : Token → TokenKind → Token
with_kind token kind = record token { kind = kind }

abbrev assign_bitwise : Option TokenKind → Combine
assign_bitwise (some op_kind) expression token rhs =
    assign_expression expression (with_kind token op_kind)
      (bitwise_expression expression (with_kind token op_kind) rhs)
assign_bitwise none expression token rhs = assign_expression expression token rhs

abbrev assign_binary : Option TokenKind → Combine
assign_binary (some op_kind) expression token rhs =
    assign_expression expression (with_kind token op_kind)
      (binary_expression expression (with_kind token op_kind) rhs)
assign_binary none expression token rhs =
    assign_bitwise (assignments_bitwise_operators token.kind) expression token rhs

unfoldable pub assign : Combine
assign expression token rhs =
    assign_binary (assignments_binary_operators token.kind) expression token rhs

-- `enum::element`, with the value of the element and its type.
unfoldable pub enum_access : Token → Enumeration → Parse Expression
enum_access enum_name enum = do
  element ← consume_kind token_identifier (codes "Expect identifier as enum field name")
  choose (find element.literal enum.values)
      (λ index. pure (
        enum_access_expression enum_name element index
          (AmunType.enum_element enum_name.literal enum.element_type)))
      (report_error element.position (
        codes "Can't find element with name "
        ++ (element.literal ++ (codes " in enum " ++ enum_name.literal))))

unfoldable pub enum_access_of : Token → Parse Expression
enum_access_of enum_name = do
  enumerations ← gets (λ s. s.context.enumerations)
  choose (find enum_name.literal enumerations) (enum_access enum_name) (
      report_error enum_name.position
        (codes "Can't find enum declaration with name " ++ enum_name.literal))

module _ (call : Calls) where
  unfoldable pub parse_enum_access_expression : Parse Expression
  parse_enum_access_expression = do
    expression ← parse_infix_call_expression call
    when (is_current_kind token_colon_colon)
        (do
          colons_token ← peek_and_advance_token
          choose (as_literal expression) enum_access_of
              (report_error colons_token.position (codes "Expect identifier as Enum name")))
        (pure expression)

  -- `e = operand(); while (test) { op = peek_and_advance_token(); e = combine(e, op, operand()); }`
  unfoldable pub parse_operators : Test → Combine → Parse Expression → Parse Expression
  parse_operators test combine operand = do
    expression ← operand
    repeat call.rounds test
        (λ e. do op ← peek_and_advance_token; right ← operand; again (combine e op right))
        expression

  unfoldable pub parse_factor_expression : Parse Expression
  parse_factor_expression =
      parse_operators
        (is_current_kind token_star
          or_else is_current_kind token_slash
          or_else is_current_kind token_percent)
        binary_expression parse_enum_access_expression

  unfoldable pub parse_term_expression : Parse Expression
  parse_term_expression =
      parse_operators (is_current_kind token_plus or_else is_current_kind token_minus)
        binary_expression parse_factor_expression

  -- A right shift is spelled by two tokens, of which the second is kept.
  unfoldable pub parse_bitwise_shift_expression : Parse Expression
  parse_bitwise_shift_expression = do
    expression ← parse_term_expression
    repeat call.rounds (is_current_kind token_left_shift or_else at_right_shift)
        (λ e.
          when (is_current_kind token_left_shift)
            (do
              operator_token ← peek_and_advance_token
              right ← parse_term_expression
              again (bitwise_expression e operator_token right))
            (do
              advanced_token
              operator_token ← peek_and_advance_token
              right ← parse_term_expression
              again (bitwise_expression e (with_kind operator_token token_right_shift) right)))
        expression

  unfoldable pub parse_comparison_expression : Parse Expression
  parse_comparison_expression =
      parse_operators
        (is_current_kind token_greater
          or_else is_current_kind token_greater_equal
          or_else is_current_kind token_smaller
          or_else is_current_kind token_smaller_equal)
        compare_with parse_bitwise_shift_expression

  unfoldable pub parse_equality_expression : Parse Expression
  parse_equality_expression =
      parse_operators (is_current_kind token_equal_equal or_else is_current_kind token_bang_equal)
        comparison_expression parse_comparison_expression

  unfoldable pub parse_bitwise_or_expression : Parse Expression
  parse_bitwise_or_expression =
      parse_operators (is_current_kind token_or) bitwise_expression parse_equality_expression

  unfoldable pub parse_bitwise_xor_expression : Parse Expression
  parse_bitwise_xor_expression =
      parse_operators (is_current_kind token_xor) bitwise_expression parse_bitwise_or_expression

  unfoldable pub parse_bitwise_and_expression : Parse Expression
  parse_bitwise_and_expression =
      parse_operators (is_current_kind token_and) bitwise_expression parse_bitwise_xor_expression

  unfoldable pub parse_logical_and_expression : Parse Expression
  parse_logical_and_expression =
      parse_operators (is_current_kind token_and_and) logical_expression
        parse_bitwise_and_expression

  unfoldable pub parse_logical_or_expression : Parse Expression
  parse_logical_or_expression =
      parse_operators (is_current_kind token_or_or) logical_expression parse_logical_and_expression

  unfoldable pub parse_assignment_expression : Parse Expression
  parse_assignment_expression = do
    expression ← parse_logical_or_expression
    when (kind_in assignments_operators)
        (do
          assignments_token ← peek_and_advance_token
          rhs ← call.parse_assignment_expression
          pure (assign expression assignments_token rhs))
        (pure expression)

  unfoldable pub parse_expression : Parse Expression
  parse_expression = parse_assignment_expression
