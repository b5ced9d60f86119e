-- ===== src/Parser/Total/Conditional.antt =====
-- Parsing an if or switch expression or a directive ends (src/amun_parser.cpp,
-- src/amun_parser_directives.cpp).
use amun.Prelude.{ℕ, suc, Bool, true, false}
use amun.Prelude.Text.{Bytes}
use amun.Token.{Token}
use amun.Types.{NumberKind}
use amun.Parser.{Environment}
use amun.Parser.Calls.{Calls}
use amun.Parser.Conditional.{
  parse_switch_operator, IfParts, SwitchParts, parse_braced, parse_condition, parse_else_if_value,
  parse_else_value, parse_if_expression, parse_switch_default, parse_case_value, parse_switch_case,
  parse_switch_cases, parse_switch_expression,
}
use amun.Parser.Directives.{
  parse_limit, parse_vector, parse_named_directive, parse_expressions_directive,
}
use amun.Parser.Ends.{Ends}
use amun.Parser.Leaves.{ends_rules}
use amun.Parser.Total.Checks.{refuse_if-Still, check_unnecessary_semicolon_warning-Ends}
use amun.Parser.Total.Types.{CallsEnd}

pub parse_switch_operator-Ends : (known : Bool) (n : ℕ) → Ends known false n parse_switch_operator
unfolding parse_switch_operator
parse_switch_operator-Ends known n = search (ends_rules, refuse_if-Still) depth 12

module _ {n : ℕ} (call : Calls) (ends : CallsEnd n call) where
  parse_braced-Ends :
      (known strict : Bool) (start end : Bytes) → Ends known strict n (parse_braced call start end)
  unfolding parse_braced
  parse_braced-Ends known strict start end = search (ends_rules, ends.expression) depth 12

  parse_condition-Ends : (known strict : Bool) → Ends known strict n (parse_condition call)
  unfolding parse_condition
  parse_condition-Ends known strict = search (ends_rules, ends.expression) depth 12

  parse_else_if_value-Ends : (p : IfParts) → Ends false false n (parse_else_if_value call p)
  unfolding parse_else_if_value
  parse_else_if_value-Ends p = search (ends_rules, parse_braced-Ends, parse_condition-Ends) depth 12

  parse_else_value-Ends : (p : IfParts) → Ends false false n (parse_else_value call p)
  unfolding parse_else_value
  parse_else_value-Ends p = search (ends_rules, parse_braced-Ends, refuse_if-Still) depth 12

  pub parse_if_expression-Ends :
      (strict : Bool) → Ends true strict (suc n) (parse_if_expression call)
  unfolding parse_if_expression
  parse_if_expression-Ends strict =
      search
        (
          ends_rules, parse_braced-Ends, parse_condition-Ends, parse_else_if_value-Ends,
          parse_else_value-Ends, ends.rounds,
        )
        depth 12 fits 2000

  parse_switch_default-Ends : (p : SwitchParts) → Ends true true n (parse_switch_default call p)
  unfolding parse_switch_default
  parse_switch_default-Ends p =
      search (ends_rules, ends.expression, check_unnecessary_semicolon_warning-Ends) depth 12

  parse_case_value-Ends :
      (known strict : Bool) (keyword : Token) (p : SwitchParts)
      → Ends known strict n (parse_case_value call keyword p)
  unfolding parse_case_value
  parse_case_value-Ends known strict keyword p =
      search (ends_rules, ends.expression, refuse_if-Still) depth 12

  parse_switch_case-Ends :
      (keyword : Token) (p : SwitchParts) → Ends true true n (parse_switch_case call keyword p)
  unfolding parse_switch_case
  parse_switch_case-Ends keyword p =
      search
        (
          ends_rules, ends.expression, parse_case_value-Ends,
          check_unnecessary_semicolon_warning-Ends, ends.rounds,
        )
        depth 12 fits 2000

  parse_switch_cases-Ends : (keyword : Token) → Ends false false n (parse_switch_cases call keyword)
  unfolding parse_switch_cases
  parse_switch_cases-Ends keyword =
      search (ends_rules, parse_switch_default-Ends, parse_switch_case-Ends, ends.rounds) depth 12

  pub parse_switch_expression-Ends :
      (known strict : Bool) → Ends known strict (suc n) (parse_switch_expression call)
  unfolding parse_switch_expression
  parse_switch_expression-Ends known strict =
      search
        (
          ends_rules, ends.expression, parse_switch_operator-Ends, parse_switch_cases-Ends,
          refuse_if-Still,
        )
        depth 16 fits 4000

  parse_limit-Ends :
      (directive : Token) (text : Environment → NumberKind → Bytes) (name : Bytes)
      → Ends false false n (parse_limit call directive text name)
  unfolding parse_limit
  parse_limit-Ends directive text name = search (ends_rules, ends.type) depth 12

  parse_vector-Ends : (directive : Token) → Ends false false n (parse_vector call directive)
  unfolding parse_vector
  parse_vector-Ends directive = search (ends_rules, ends.expression) depth 12

  parse_named_directive-Ends :
      (directive : Token) → Ends false false n (parse_named_directive call directive)
  unfolding parse_named_directive
  parse_named_directive-Ends directive =
      search (ends_rules, parse_limit-Ends, parse_vector-Ends) depth 16

  pub parse_expressions_directive-Ends :
      (known strict : Bool) → Ends known strict (suc n) (parse_expressions_directive call)
  unfolding parse_expressions_directive
  parse_expressions_directive-Ends known strict =
      search (ends_rules, parse_named_directive-Ends) depth 12
