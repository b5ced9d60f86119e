-- ===== src/Parser/Operands.antt =====
-- src/amun_parser.cpp: the primary expressions, initializers and lambda arguments, below the postfix operators.
use amun.Prelude.{Bool, false, ◌||◌, Option, none, some}
use amun.Prelude.Text.{codes}
use amun.Token.{Token}
use amun.Token.{
  token_open_paren, token_close_paren, token_open_bracket, token_open_brace, token_identifier,
  token_character, token_string, token_true, token_false, token_null, token_if, token_switch,
  token_cast, token_type_size, token_type_allign, token_value_size, token_at, token_smaller,
}
use amun.ScopedMap.{contains, find}
use amun.Types.{Types, MaybeType}
use amun.Types.Queries.{is_struct_type, is_generic_struct_type}
use amun.Ast.{Expression, Expressions, append_expression}
use amun.Ast.{
  literal_expression, call_expression, initialize_expression, character_expression,
  string_expression, boolean_expression, null_expression,
}
use amun.Parser.{Parser, Parse, FunctionKind, pure, ◌>>=◌, ◌>>◌, normal_function}
use amun.Parser.Reading.{
  Test, peek_current, assert_kind, advanced_token, when, is_current_kind, is_next_kind, is_not,
  ◌and_then◌, ◌or_else◌,
}
use amun.Parser.Checks.{unexpected_token_error, is_function_declaration_kind}
use amun.Parser.Calls.{Calls}
use amun.Parser.Types.{parse_type}
use amun.Parser.Primary.{
  is_number_kind, parse_number_expression, parse_literal_expression, parse_token,
  parse_constant_or_literal, parse_separated_values_while, parse_lambda_expression,
  parse_group_or_tuple_expression, parse_array_expression, parse_cast_expression,
  parse_type_size_expression, parse_type_allign_expression, parse_value_size_expression,
}
use amun.Parser.Conditional.{parse_if_expression, parse_switch_expression}
use amun.Parser.Directives.{parse_expressions_directive}

-- `is_function_declaration_kind(current_token->literal, kind)`
unfoldable pub names_function : FunctionKind → Test
names_function kind s token = is_function_declaration_kind token.literal kind s.context

-- The current token is the name of a struct type.
abbrev is_struct : MaybeType → Bool
is_struct (MaybeType.shared type) = is_struct_type type || is_generic_struct_type type
is_struct MaybeType.null = false

abbrev alias_is_struct : Option MaybeType → Bool
alias_is_struct (some type) = is_struct type
alias_is_struct none = false

unfoldable pub names_struct : Test
names_struct s token = alias_is_struct (find token.literal s.context.type_alias_table)

-- `dynamic_pointer_cast<LiteralExpression>`, its name.
unfoldable pub as_literal : Expression → Option Token
as_literal (literal_expression name) = some name
as_literal _ = none

abbrev pub names_any_function : Option Token → Parser → Bool
names_any_function (some name) s = contains name.literal s.context.functions
names_any_function none s = false

module _ (call : Calls) where
  -- The cases of the switch over the kind, from the last ones on.
  unfoldable pub parse_keyword_expression : Parse Expression
  parse_keyword_expression = when (is_current_kind token_cast) (parse_cast_expression call) (
      when (is_current_kind token_type_size) (parse_type_size_expression call) (
        when (is_current_kind token_type_allign) (parse_type_allign_expression call) (
          when (is_current_kind token_value_size) (parse_value_size_expression call) (
            when (is_current_kind token_at) (parse_expressions_directive call)
              unexpected_token_error))))

  unfoldable pub parse_compound_expression : Parse Expression
  parse_compound_expression =
      when (is_current_kind token_open_paren) (parse_group_or_tuple_expression call) (
        when (is_current_kind token_open_bracket) (parse_array_expression call) (
          when (is_current_kind token_open_brace) (parse_lambda_expression call) (
            when (is_current_kind token_if) (parse_if_expression call) (
              when (is_current_kind token_switch) (parse_switch_expression call)
                parse_keyword_expression))))

  unfoldable pub parse_primary_expression : Parse Expression
  parse_primary_expression = when is_number_kind parse_number_expression (
      when (is_current_kind token_character) (parse_token character_expression) (
        when (is_current_kind token_string) (parse_token string_expression) (
          when (is_current_kind token_true or_else is_current_kind token_false)
            (parse_token boolean_expression)
            (when (is_current_kind token_null) (parse_token null_expression) (
              when (is_current_kind token_identifier) parse_constant_or_literal
                parse_compound_expression)))))

  unfoldable pub parse_function_call_with_lambda_argument : Parse Expression
  parse_function_call_with_lambda_argument =
      when
        (is_current_kind token_identifier
          and_then is_next_kind token_open_brace
          and_then names_function normal_function)
        (do
          symbol_token ← peek_current
          literal ← parse_literal_expression
          lambda ← parse_lambda_expression call
          pure (
              call_expression symbol_token literal (Expressions.cons lambda Expressions.nil)
                Types.nil))
        parse_primary_expression

  -- A lambda behind the arguments is one more argument.
  unfoldable pub parse_lambda_argument : Expressions → Parse Expressions
  parse_lambda_argument arguments =
      when (is_current_kind token_open_brace)
        (do lambda ← parse_lambda_expression call; pure (append_expression arguments lambda))
        (pure arguments)

  unfoldable pub parse_initializer_arguments : Parse Expressions
  parse_initializer_arguments =
      when (is_current_kind token_open_paren)
        (do
          advanced_token
          arguments ←
              parse_separated_values_while call (is_not (is_current_kind token_close_paren))
                Expressions.nil
          assert_kind token_close_paren (codes "Expect ) at the end of initializer")
          pure arguments)
        (pure Expressions.nil)

  unfoldable pub parse_initializer : Parse Expression
  parse_initializer = do
    type ← parse_type call
    token ← peek_current
    arguments ← parse_initializer_arguments
    all_arguments ← parse_lambda_argument arguments
    pure (initialize_expression token type all_arguments)

  unfoldable pub parse_initializer_expression : Parse Expression
  parse_initializer_expression =
      when
        (is_current_kind token_identifier
          and_then names_struct
          and_then (is_next_kind token_open_paren
              or_else is_next_kind token_open_brace
              or_else is_next_kind token_smaller))
        parse_initializer parse_function_call_with_lambda_argument
