-- ===== src/Parser/Total/Postfix.antt =====
-- Parsing the calls, the accesses and the unary operators ends (src/amun_parser.cpp).
use amun.Prelude.{◌≡◌, refl, ℕ, suc, Bool, true, false}
use amun.Prelude.Text.{Bytes}
use amun.Token.{token_end_of_file}
use amun.Ast.{Expression, Expressions}
use amun.Parser.{Enumeration}
use amun.Parser.Calls.{Calls}
use amun.Parser.Postfix.{
  continues_access, parse_postfix_call_expression, parse_enumeration_attribute,
  parse_enumeration_attribute_expression, parse_dot, parse_arguments, parse_generic_call,
  parse_call, parse_index, parse_call_or_access_expression, parse_postfix_increment_or_decrement,
  parse_prefix_call_expression, parse_prefix_expression, parse_infix_call_expression,
}
use amun.Parser.Operands.{
  parse_keyword_expression, parse_compound_expression, parse_primary_expression,
  parse_function_call_with_lambda_argument, parse_lambda_argument, parse_initializer_arguments,
  parse_initializer, parse_initializer_expression,
}
use amun.Token.Operators.{unary_operators}
use amun.Parser.Ends.{Ends}
use amun.Parser.Rules.{Guards}
use amun.Parser.Leaves.{ends_rules}
use amun.Parser.Total.Checks.{unexpected_token_error-Ends}
use amun.Parser.Total.Types.{CallsEnd, parse_type-Ends, parse_generic_arguments_if_exists-Ends}
use amun.Parser.Total.Primary.{
  is_number_kind-Guards, parse_number_expression-Ends, parse_literal_expression-Ends,
  parse_token-Ends, parse_constant_or_literal-Ends, parse_values_while-Ends,
  parse_separated_values_while-Ends, parse_lambda_expression-Ends, parse_lambda_lower,
  parse_group_or_tuple_expression-Ends, parse_array_expression-Ends, parse_cast_expression-Ends,
  parse_type_size_expression-Ends, parse_type_allign_expression-Ends,
  parse_value_size_expression-Ends,
}
use amun.Parser.Total.Conditional.{
  parse_if_expression-Ends, parse_switch_expression-Ends, parse_expressions_directive-Ends,
}

unary_end : unary_operators token_end_of_file ≡ false
unfolding unary_operators
unary_end = refl

continues_access-Guards : (e : Expression) → Guards (continues_access e)
unfolding continues_access
continues_access-Guards e = search ends_rules depth 12

module _ {n : ℕ} (call : Calls) (ends : CallsEnd n call) where
  parse_keyword_expression-Ends :
      (known strict : Bool) → Ends known strict (suc n) (parse_keyword_expression call)
  unfolding parse_keyword_expression
  parse_keyword_expression-Ends known strict =
      search
        (
          ends_rules, parse_cast_expression-Ends, parse_type_size_expression-Ends,
          parse_type_allign_expression-Ends, parse_value_size_expression-Ends,
          parse_expressions_directive-Ends, unexpected_token_error-Ends,
        )
        depth 12

  parse_compound_expression-Ends :
      (known strict : Bool) → Ends known strict (suc n) (parse_compound_expression call)
  unfolding parse_compound_expression
  parse_compound_expression-Ends known strict =
      search
        (
          ends_rules, parse_group_or_tuple_expression-Ends, parse_array_expression-Ends,
          parse_lambda_expression-Ends, parse_if_expression-Ends, parse_switch_expression-Ends,
          parse_keyword_expression-Ends,
        )
        depth 12

  parse_primary_expression-Ends :
      (known strict : Bool) → Ends known strict (suc n) (parse_primary_expression call)
  unfolding parse_primary_expression
  parse_primary_expression-Ends known strict =
      search
        (
          ends_rules, is_number_kind-Guards, parse_number_expression-Ends, parse_token-Ends,
          parse_constant_or_literal-Ends, parse_compound_expression-Ends,
        )
        depth 12

  parse_function_call_with_lambda_argument-Ends :
      (known strict : Bool)
      → Ends known strict (suc n) (parse_function_call_with_lambda_argument call)
  unfolding parse_function_call_with_lambda_argument
  parse_function_call_with_lambda_argument-Ends known strict =
      search
        (
          ends_rules, parse_literal_expression-Ends, parse_lambda_lower,
          parse_primary_expression-Ends,
        )
        depth 12

  parse_lambda_argument-Ends :
      (arguments : Expressions) → Ends false false n (parse_lambda_argument call arguments)
  unfolding parse_lambda_argument
  parse_lambda_argument-Ends arguments = search (ends_rules, parse_lambda_lower) depth 12

  parse_initializer_arguments-Ends : Ends false false n (parse_initializer_arguments call)
  unfolding parse_initializer_arguments
  parse_initializer_arguments-Ends = search (ends_rules, parse_separated_values_while-Ends) depth 12

  parse_initializer-Ends :
      (known strict : Bool) → Ends known strict (suc n) (parse_initializer call)
  unfolding parse_initializer
  parse_initializer-Ends known strict =
      search
        (ends_rules, parse_type-Ends, parse_initializer_arguments-Ends, parse_lambda_argument-Ends)
        depth 12

  parse_initializer_expression-Ends :
      (known strict : Bool) → Ends known strict (suc n) (parse_initializer_expression call)
  unfolding parse_initializer_expression
  parse_initializer_expression-Ends known strict =
      search (ends_rules, parse_initializer-Ends, parse_function_call_with_lambda_argument-Ends)
        depth 12

  parse_postfix_call_expression-Ends :
      (known strict : Bool) → Ends known strict (suc n) (parse_postfix_call_expression call)
  unfolding parse_postfix_call_expression
  parse_postfix_call_expression-Ends known strict =
      search
        (
          ends_rules, parse_initializer_expression-Ends, parse_literal_expression-Ends,
          parse_generic_arguments_if_exists-Ends,
        )
        depth 12

  parse_enumeration_attribute-Ends :
      (enum : Enumeration) → Ends true false n (parse_enumeration_attribute call enum)
  unfolding parse_enumeration_attribute
  parse_enumeration_attribute-Ends enum = search ends_rules depth 12

  parse_enumeration_attribute_expression-Ends :
      (known strict : Bool)
      → Ends known strict (suc n) (parse_enumeration_attribute_expression call)
  unfolding parse_enumeration_attribute_expression
  parse_enumeration_attribute_expression-Ends known strict =
      search (ends_rules, parse_postfix_call_expression-Ends, parse_enumeration_attribute-Ends)
        depth 12

  parse_dot-Ends : (e : Expression) → Ends true true n (parse_dot call e)
  unfolding parse_dot
  parse_dot-Ends e = search ends_rules depth 12

  parse_arguments-Ends : (message : Bytes) → Ends false false n (parse_arguments call message)
  unfolding parse_arguments
  parse_arguments-Ends message =
      search (ends_rules, parse_values_while-Ends, parse_lambda_argument-Ends) depth 12

  parse_generic_call-Ends : (e : Expression) → Ends true true n (parse_generic_call call e)
  unfolding parse_generic_call
  parse_generic_call-Ends e =
      search (ends_rules, parse_generic_arguments_if_exists-Ends, parse_arguments-Ends) depth 12

  parse_call-Ends : (e : Expression) → Ends true true n (parse_call call e)
  unfolding parse_call
  parse_call-Ends e = search (ends_rules, parse_arguments-Ends) depth 12

  parse_index-Ends : (e : Expression) → Ends true true n (parse_index call e)
  unfolding parse_index
  parse_index-Ends e = search (ends_rules, ends.expression) depth 12

  parse_call_or_access_expression-Ends :
      (known strict : Bool) → Ends known strict (suc n) (parse_call_or_access_expression call)
  unfolding parse_call_or_access_expression
  parse_call_or_access_expression-Ends known strict =
      search
        (
          ends_rules, parse_enumeration_attribute_expression-Ends, continues_access-Guards,
          parse_dot-Ends, parse_generic_call-Ends, parse_call-Ends, parse_index-Ends, ends.rounds,
        )
        depth 12

  parse_postfix_increment_or_decrement-Ends :
      (known strict : Bool) → Ends known strict (suc n) (parse_postfix_increment_or_decrement call)
  unfolding parse_postfix_increment_or_decrement
  parse_postfix_increment_or_decrement-Ends known strict =
      search (ends_rules, parse_call_or_access_expression-Ends) depth 12

  parse_prefix_call_expression-Ends :
      (known strict : Bool) → Ends known strict (suc n) (parse_prefix_call_expression call)
  unfolding parse_prefix_call_expression
  parse_prefix_call_expression-Ends known strict =
      search
        (
          ends_rules, parse_literal_expression-Ends, parse_generic_arguments_if_exists-Ends,
          ends.prefix, parse_postfix_increment_or_decrement-Ends,
        )
        depth 12

  pub parse_prefix_expression-Ends :
      (known strict : Bool) → Ends known strict (suc n) (parse_prefix_expression call)
  unfolding parse_prefix_expression
  parse_prefix_expression-Ends known strict =
      search (ends_rules, unary_end, ends.prefix, parse_prefix_call_expression-Ends) depth 12

  pub parse_infix_call_expression-Ends :
      (known strict : Bool) → Ends known strict (suc n) (parse_infix_call_expression call)
  unfolding parse_infix_call_expression
  parse_infix_call_expression-Ends known strict =
      search
        (
          ends_rules, parse_prefix_expression-Ends, parse_literal_expression-Ends,
          parse_generic_arguments_if_exists-Ends, ends.infix_call,
        )
        depth 12
