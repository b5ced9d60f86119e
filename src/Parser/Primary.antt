-- ===== src/Parser/Primary.antt =====
-- src/amun_parser.cpp: the primary expressions, but for the conditional ones.
use amun.Prelude.{ℕ, false, not, ◌&&◌, List, [], ◌∷◌, ◌++◌, Option, none, some, if◌then◌else◌}
use amun.Prelude.Text.{codes}
use amun.Token.{Token}
use amun.Token.{
  token_comma, token_open_paren, token_close_paren, token_close_bracket, token_open_brace,
  token_close_brace, token_right_arrow, token_cast, token_type_size, token_type_allign,
  token_value_size, token_identifier, token_int, token_int1, token_int8, token_int16, token_int32,
  token_int64, token_uint8, token_uint16, token_uint32, token_uint64, token_float, token_float32,
  token_float64,
}
use amun.ScopedMap
use amun.Types.{AmunType}
use amun.Types.Queries.{is_void_type}
use amun.Ast.{
  Expression, Expressions, Statements, Parameter, MaybeExpression, append_expression,
  append_statement, ends_with_return, return_statement,
}
use amun.Ast.{
  literal_expression, number_expression, tuple_expression, array_expression, cast_expression,
  type_size_expression, type_align_expression, value_size_expression, lambda_expression,
}
use amun.Parser.{Parse, Action, pure, done, ◌>>=◌, ◌>>◌, gets, value, set_loop_levels}
use amun.Parser.Reading.{
  Test, peek_current, peek_previous, peek_and_advance_token, consume_kind, assert_kind,
  advanced_token, when, choose, repeat, again, leave, is_current_kind, is_source_available, is_not,
  ◌and_then◌, ◌or_else◌,
}
use amun.Parser.Checks.{get_number_kind}
use amun.Parser.Calls.{Calls}

-- The kinds of the first case of `parse_primary_expression`.
unfoldable pub is_number_kind : Test
is_number_kind =
    is_current_kind token_int
    or_else is_current_kind token_int1
    or_else is_current_kind token_int8
    or_else is_current_kind token_int16
    or_else is_current_kind token_int32
    or_else is_current_kind token_int64
    or_else is_current_kind token_uint8
    or_else is_current_kind token_uint16
    or_else is_current_kind token_uint32
    or_else is_current_kind token_uint64
    or_else is_current_kind token_float
    or_else is_current_kind token_float32
    or_else is_current_kind token_float64

unfoldable pub parse_number_expression : Parse Expression
parse_number_expression = do
  number_token ← peek_and_advance_token
  number_kind ← get_number_kind number_token.kind
  pure (number_expression number_token (AmunType.number number_kind))

unfoldable pub parse_literal_expression : Parse Expression
parse_literal_expression = do name ← peek_and_advance_token; pure (literal_expression name)

-- `advanced_token(); return make(peek_previous())`
unfoldable pub parse_token : (Token → Expression) → Parse Expression
parse_token make = do advanced_token; previous ← peek_previous; pure (make previous)

-- The case of an identifier: a constant stands for its value.
unfoldable pub parse_constant_or_literal : Parse Expression
parse_constant_or_literal = do
  name ← peek_current
  constants ← gets (λ s. s.context.constants_table_map)
  choose (ScopedMap.lookup name.literal constants) (λ constant. advanced_token >> pure constant)
      parse_literal_expression

-- The stack of loop levels: `push(0)` and `pop()`, which wants a stack that is not empty.
unfoldable pub push_loop_level : Action
push_loop_level = do levels ← gets (λ s. s.loop_levels_stack); set_loop_levels (0 ∷ levels)

unfoldable pub tail_of : List ℕ → Option (List ℕ)
tail_of [] = none
tail_of (level ∷ levels) = some levels

unfoldable pub pop_loop_level : Action
pop_loop_level = do
  levels ← gets (λ s. s.loop_levels_stack)
  rest ← value (tail_of levels)
  set_loop_levels rest

-- A body without a result ends with a `return`, which is written where the source leaves it out.
abbrev pub return_if_void : AmunType → Token → Statements → Statements
return_if_void return_type close_brace body =
    if is_void_type return_type && not (ends_with_return body)
    then append_statement body (return_statement close_brace MaybeExpression.null false)
    else body

abbrev pub concat_parameter : List Parameter → Parameter → List Parameter
concat_parameter parameters parameter = parameters ++ parameter ∷ []

module _ (call : Calls) where
  -- `while (test) { push_back(parse_expression()); if comma advance; }`
  unfoldable pub parse_values_while : Test → Expressions → Parse Expressions
  parse_values_while test values =
      repeat call.rounds test
        (λ values. do
          e ← call.parse_expression
          when (is_current_kind token_comma) advanced_token done
          again (append_expression values e))
        values

  -- The same with `else break`.
  unfoldable pub parse_separated_values_while : Test → Expressions → Parse Expressions
  parse_separated_values_while test values =
      repeat call.rounds test
        (λ values. do
          e ← call.parse_expression
          when (is_current_kind token_comma) (advanced_token >> again (append_expression values e))
              (leave (append_expression values e)))
        values

  unfoldable pub parse_parameter : Parse Parameter
  parse_parameter = do
    name ← consume_kind token_identifier (codes "Expect identifier as parameter name.")
    type ← call.parse_type
    pure (record { name = name; type = type })

  -- `while (test) { push_back(parse_parameter()); if comma advance else break; }`
  unfoldable pub parse_parameters_while : Test → Parse (List Parameter)
  parse_parameters_while test =
      repeat call.rounds test
        (λ parameters. do
          parameter ← parse_parameter
          when (is_current_kind token_comma)
              (advanced_token >> again (concat_parameter parameters parameter))
              (leave (concat_parameter parameters parameter)))
        []

  unfoldable pub parse_statements_while : Test → Parse Statements
  parse_statements_while test =
      repeat call.rounds test
        (λ statements. do
          statement ← call.parse_statement
          again (append_statement statements statement))
        Statements.empty

  -- The parameters and the return type in front of the body.
  unfoldable pub parse_lambda_signature : Parse (List Parameter × AmunType)
  parse_lambda_signature =
      when (is_current_kind token_open_paren)
        (do
          advanced_token
          parameters ← parse_parameters_while (is_not (is_current_kind token_close_paren))
          assert_kind token_close_paren (codes "Expect ) after lambda parameters")
          when (is_current_kind token_right_arrow)
              (advanced_token >> pure (parameters, AmunType.void))
              (do
                return_type ← call.parse_type
                assert_kind token_right_arrow (codes "Expect -> after lambda return type")
                pure (parameters, return_type)))
        (pure ([], AmunType.void))

  unfoldable pub parse_lambda_expression : Parse Expression
  parse_lambda_expression = do
    open_paren ← consume_kind token_open_brace (codes "Expect { at the start of lambda expression")
    signature ← parse_lambda_signature
    push_loop_level
    body ← parse_statements_while (is_not (is_current_kind token_close_brace))
    pop_loop_level
    close_brace ← consume_kind token_close_brace (codes "Expect } at the end of lambda expression")
    pure (
        lambda_expression open_paren signature.0 signature.1
          (return_if_void signature.1 close_brace body))

  unfoldable pub parse_group_or_tuple_expression : Parse Expression
  parse_group_or_tuple_expression = do
    assert_kind token_open_paren (codes "Expect ( at the start of group or tuple expression")
    expression ← call.parse_expression
    when (is_current_kind token_comma)
        (do
          token ← peek_and_advance_token
          values ←
              parse_values_while (is_not (is_current_kind token_close_paren))
                (Expressions.cons expression Expressions.nil)
          assert_kind token_close_paren (codes "Expect ) at the end of tuple values expression")
          pure (tuple_expression token values))
        (do
          assert_kind token_close_paren (codes "Expect ) at the end of group expression")
          pure expression)

  unfoldable pub parse_array_expression : Parse Expression
  parse_array_expression = do
    position ← peek_and_advance_token
    values ←
        parse_values_while
          (is_source_available and_then is_not (is_current_kind token_close_bracket))
          Expressions.nil
    assert_kind token_close_bracket (codes "Expect ] at the end of array values")
    pure (array_expression position values)

  unfoldable pub parse_cast_expression : Parse Expression
  parse_cast_expression = do
    cast_keyword ← consume_kind token_cast (codes "Expect cast keyword")
    assert_kind token_open_paren (codes "Expect `(` after cast keyword")
    target_type ← call.parse_type
    when (is_current_kind token_comma)
        (do
          advanced_token
          expression ← call.parse_expression
          assert_kind token_close_paren (codes "Expect `)` after cast type")
          pure (cast_expression cast_keyword target_type expression))
        (do
          assert_kind token_close_paren (codes "Expect `)` after cast type")
          expression ← call.parse_expression
          pure (cast_expression cast_keyword target_type expression))

  unfoldable pub parse_type_size_expression : Parse Expression
  parse_type_size_expression = do
    assert_kind token_type_size (codes "Expect type_size keyword")
    assert_kind token_open_paren (codes "Expect `(` after type_size keyword")
    type ← call.parse_type
    assert_kind token_close_paren (codes "Expect `)` after type_size type")
    pure (type_size_expression type)

  unfoldable pub parse_type_allign_expression : Parse Expression
  parse_type_allign_expression = do
    assert_kind token_type_allign (codes "Expect type_size keyword")
    assert_kind token_open_paren (codes "Expect `(` after type_size keyword")
    type ← call.parse_type
    assert_kind token_close_paren (codes "Expect `)` after type_size type")
    pure (type_align_expression type)

  unfoldable pub parse_value_size_expression : Parse Expression
  parse_value_size_expression = do
    assert_kind token_value_size (codes "Expect value_size keyword")
    assert_kind token_open_paren (codes "Expect `(` after value_size keyword")
    value ← call.parse_expression
    assert_kind token_close_paren (codes "Expect `)` after value_size type")
    pure (value_size_expression value)
