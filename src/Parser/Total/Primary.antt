-- ===== src/Parser/Total/Primary.antt =====
-- Parsing a primary expression ends (src/amun_parser.cpp).
use amun.Prelude.{ℕ, suc, Bool, true, false}
use amun.Token.{Token}
use amun.Ast.{Expression, Expressions}
use amun.Parser.Reading.{Test}
use amun.Parser.Calls.{Calls}
use amun.Parser.Primary.{
  is_number_kind, parse_number_expression, parse_literal_expression, parse_token,
  parse_constant_or_literal, push_loop_level, pop_loop_level, parse_values_while,
  parse_separated_values_while, parse_parameter, parse_parameters_while, parse_statements_while,
  parse_lambda_signature, parse_lambda_expression, parse_group_or_tuple_expression,
  parse_array_expression, parse_cast_expression, parse_type_size_expression,
  parse_type_allign_expression, parse_value_size_expression,
}
use amun.Parser.Ends.{Ends, Still}
use amun.Parser.Rules.{Guards, lower-Ends}
use amun.Parser.Leaves.{ends_rules, still_rules}
use amun.Parser.Total.Checks.{get_number_kind-Still}
use amun.Parser.Total.Types.{CallsEnd}

pub is_number_kind-Guards : Guards is_number_kind
unfolding is_number_kind
is_number_kind-Guards = search ends_rules depth 20 fits 3000

module _ (strict : Bool) (n : ℕ) where
  pub parse_number_expression-Ends : Ends true strict n parse_number_expression
  unfolding parse_number_expression
  parse_number_expression-Ends = search (ends_rules, get_number_kind-Still) depth 12

  pub parse_literal_expression-Ends : Ends true strict n parse_literal_expression
  unfolding parse_literal_expression
  parse_literal_expression-Ends = search ends_rules depth 12

  pub parse_token-Ends : (make : Token → Expression) → Ends true strict n (parse_token make)
  unfolding parse_token
  parse_token-Ends make = search ends_rules depth 12

pub parse_constant_or_literal-Ends :
    (strict : Bool) (n : ℕ) → Ends true strict n parse_constant_or_literal
unfolding parse_constant_or_literal
parse_constant_or_literal-Ends strict n =
    search (ends_rules, parse_literal_expression-Ends) depth 12

pub push_loop_level-Still : Still push_loop_level
unfolding push_loop_level
push_loop_level-Still = search still_rules

pub pop_loop_level-Still : Still pop_loop_level
unfolding pop_loop_level
pop_loop_level-Still = search still_rules

module _ {n : ℕ} (call : Calls) (ends : CallsEnd n call) where
  pub parse_values_while-Ends :
      (test : Test) (values : Expressions)
      → Ends false false n (parse_values_while call test values)
  unfolding parse_values_while
  parse_values_while-Ends test values = search (ends_rules, ends.expression, ends.rounds) depth 12

  pub parse_separated_values_while-Ends :
      (test : Test) (values : Expressions)
      → Ends false false n (parse_separated_values_while call test values)
  unfolding parse_separated_values_while
  parse_separated_values_while-Ends test values =
      search (ends_rules, ends.expression, ends.rounds) depth 12

  pub parse_parameter-Ends : (known strict : Bool) → Ends known strict n (parse_parameter call)
  unfolding parse_parameter
  parse_parameter-Ends known strict = search (ends_rules, ends.type) depth 12

  pub parse_parameters_while-Ends :
      (test : Test) → Ends false false n (parse_parameters_while call test)
  unfolding parse_parameters_while
  parse_parameters_while-Ends test = search (ends_rules, parse_parameter-Ends, ends.rounds) depth 12

  pub parse_statements_while-Ends :
      (test : Test) → Ends false false n (parse_statements_while call test)
  unfolding parse_statements_while
  parse_statements_while-Ends test = search (ends_rules, ends.statement, ends.rounds) depth 12

  parse_lambda_signature-Ends : (known : Bool) → Ends known false n (parse_lambda_signature call)
  unfolding parse_lambda_signature
  parse_lambda_signature-Ends known =
      search (ends_rules, parse_parameters_while-Ends, ends.type) depth 12 fits 2000

  pub parse_lambda_expression-Ends :
      (known strict : Bool) → Ends known strict (suc n) (parse_lambda_expression call)
  unfolding parse_lambda_expression
  parse_lambda_expression-Ends known strict =
      search
        (
          ends_rules, parse_lambda_signature-Ends, parse_statements_while-Ends,
          push_loop_level-Still, pop_loop_level-Still,
        )
        depth 12

  pub parse_lambda_lower :
      (known strict : Bool) → Ends known strict n (parse_lambda_expression call)
  parse_lambda_lower known strict =
      lower-Ends (parse_lambda_expression call) (parse_lambda_expression-Ends known strict)

  module _ (known strict : Bool) where
    pub parse_group_or_tuple_expression-Ends :
        Ends known strict (suc n) (parse_group_or_tuple_expression call)
    unfolding parse_group_or_tuple_expression
    parse_group_or_tuple_expression-Ends =
        search (ends_rules, ends.expression, parse_values_while-Ends) depth 12

    pub parse_cast_expression-Ends : Ends known strict (suc n) (parse_cast_expression call)
    unfolding parse_cast_expression
    parse_cast_expression-Ends = search (ends_rules, ends.expression, ends.type) depth 14 fits 8000

    pub parse_type_size_expression-Ends :
        Ends known strict (suc n) (parse_type_size_expression call)
    unfolding parse_type_size_expression
    parse_type_size_expression-Ends = search (ends_rules, ends.type) depth 12

    pub parse_type_allign_expression-Ends :
        Ends known strict (suc n) (parse_type_allign_expression call)
    unfolding parse_type_allign_expression
    parse_type_allign_expression-Ends = search (ends_rules, ends.type) depth 12

    pub parse_value_size_expression-Ends :
        Ends known strict (suc n) (parse_value_size_expression call)
    unfolding parse_value_size_expression
    parse_value_size_expression-Ends = search (ends_rules, ends.expression) depth 12

  pub parse_array_expression-Ends :
      (strict : Bool) → Ends true strict (suc n) (parse_array_expression call)
  unfolding parse_array_expression
  parse_array_expression-Ends strict = search (ends_rules, parse_values_while-Ends) depth 12
