-- ===== src/Parser/Total/Statements.antt =====
-- Parsing a simple statement ends (src/amun_parser.cpp).
use amun.Prelude.{ℕ, suc, Bool, true, false, ℤ}
use amun.Prelude.Text.{Bytes}
use amun.Token.{Token, TokenSpan}
use amun.Ast.{Expression, Statement}
use amun.Parser.Calls.{Calls}
use amun.Parser.Statements.{
  define_constant, parse_expression_statement, parse_block, parse_block_statement,
  parse_return_statement, parse_defer_statement, parse_field_value, parse_typed_field,
  parse_field_declaration, parse_names, parse_destructuring_field_declaration,
  parse_compiletime_constants_declaraion, parse_actual_type, parse_type_alias_declaration,
}
use amun.Parser.Breaks.{
  check_inside_loop, TimesMessages, check_times, parse_times, parse_break_statement,
  parse_continue_statement,
}
use amun.Parser.Ends.{Ends, Still}
use amun.Parser.Reading.{peek_and_advance_token}
use amun.Parser.Rules.{first-Ends}
use amun.Parser.Leaves.{ends_rules, peek_and_advance_token-Ends, still_rules}
use amun.Parser.Total.Checks.{refuse_if-Still, check_compiletime_constants_expression-Still}
use amun.Parser.Total.Types.{CallsEnd}
use amun.Parser.Total.Primary.{parse_statements_while-Ends}
use amun.Parser.Total.Levels.{parse_expression-Ends}

check_inside_loop-Still :
    (position : TokenSpan) (message : Bytes) → Still (check_inside_loop position message)
unfolding check_inside_loop
check_inside_loop-Still position message = search (still_rules, refuse_if-Still) depth 12

check_times-Ends :
    (n : ℕ) (m : TimesMessages) (keyword number : Token)
    → Ends false false n (check_times m keyword number)
unfolding check_times
check_times-Ends n m keyword number = search (ends_rules, refuse_if-Still) depth 12 fits 3000

define_constant-Still : (name : Bytes) (e : Expression) → Still (define_constant name e)
unfolding define_constant
define_constant-Still name e = search still_rules depth 12

module _ {n : ℕ} (call : Calls) (ends : CallsEnd n call) where
  pub parse_expression_statement-Ends :
      (known strict : Bool) → Ends known strict (suc n) (parse_expression_statement call)
  unfolding parse_expression_statement
  parse_expression_statement-Ends known strict =
      search (ends_rules, parse_expression-Ends) depth 12 fits 3000

  pub parse_block-Ends : (known strict : Bool) → Ends known strict (suc n) (parse_block call)
  unfolding parse_block
  parse_block-Ends known strict = search (ends_rules, parse_statements_while-Ends) depth 12

  pub parse_block_statement-Ends :
      (known strict : Bool) → Ends known strict (suc n) (parse_block_statement call)
  unfolding parse_block_statement
  parse_block_statement-Ends known strict = search (ends_rules, parse_block-Ends) depth 12

  pub parse_return_statement-Ends :
      (known strict : Bool) → Ends known strict (suc n) (parse_return_statement call)
  unfolding parse_return_statement
  parse_return_statement-Ends known strict = search (ends_rules, ends.expression) depth 12 fits 3000

  pub parse_defer_statement-Ends :
      (known strict : Bool) → Ends known strict (suc n) (parse_defer_statement call)
  unfolding parse_defer_statement
  parse_defer_statement-Ends known strict = search (ends_rules, ends.expression) depth 12 fits 3000

  parse_times-Ends :
      (m : TimesMessages) (message : Bytes) (make : Token → Bool → ℤ → Statement) (keyword : Token)
      → Ends false false n (parse_times call m message make keyword)
  unfolding parse_times
  parse_times-Ends m message make keyword =
      search (ends_rules, ends.expression, check_inside_loop-Still, check_times-Ends) depth 12 fits
        3000

  pub parse_break_statement-Ends :
      (known strict : Bool) → Ends known strict (suc n) (parse_break_statement call)
  unfolding parse_break_statement
  parse_break_statement-Ends known strict = search (ends_rules, parse_times-Ends) depth 12 fits 3000

  pub parse_continue_statement-Ends :
      (known strict : Bool) → Ends known strict (suc n) (parse_continue_statement call)
  unfolding parse_continue_statement
  parse_continue_statement-Ends known strict =
      search (ends_rules, parse_times-Ends) depth 12 fits 3000

  parse_field_value-Ends : (known strict : Bool) → Ends known strict n (parse_field_value call)
  unfolding parse_field_value
  parse_field_value-Ends known strict = search (ends_rules, ends.expression) depth 12 fits 3000

  parse_typed_field-Ends :
      (name : Token) (is_global : Bool) → Ends false false n (parse_typed_field call name is_global)
  unfolding parse_typed_field
  parse_typed_field-Ends name is_global =
      search (ends_rules, ends.type, parse_field_value-Ends) depth 12 fits 3000

  pub parse_field_declaration-Ends :
      (known strict : Bool) (is_global : Bool)
      → Ends known strict (suc n) (parse_field_declaration call is_global)
  unfolding parse_field_declaration
  parse_field_declaration-Ends known strict is_global =
      search (ends_rules, ends.expression, parse_typed_field-Ends) depth 12 fits 3000

  parse_names-Ends : Ends false false n (parse_names call)
  unfolding parse_names
  parse_names-Ends = search (ends_rules, ends.type, ends.rounds) depth 12 fits 3000

  pub parse_destructuring_field_declaration-Ends :
      (known strict : Bool) (is_global : Bool)
      → Ends known strict (suc n) (parse_destructuring_field_declaration call is_global)
  unfolding parse_destructuring_field_declaration
  parse_destructuring_field_declaration-Ends known strict is_global =
      search (ends_rules, ends.expression, parse_names-Ends) depth 12 fits 3000

  pub parse_compiletime_constants_declaraion-Ends :
      (strict : Bool) → Ends true strict (suc n) (parse_compiletime_constants_declaraion call)
  unfolding parse_compiletime_constants_declaraion
  parse_compiletime_constants_declaraion-Ends strict =
      first-Ends peek_and_advance_token _ (peek_and_advance_token-Ends true (suc n)) (λ t.
        search
          (
            ends_rules, ends.expression, define_constant-Still,
            check_compiletime_constants_expression-Still,
          )
          depth 16 fits 3000)

  parse_actual_type-Ends :
      (alias_token : Token) → Ends false false n (parse_actual_type call alias_token)
  unfolding parse_actual_type
  parse_actual_type-Ends alias_token =
      search (ends_rules, ends.type, refuse_if-Still) depth 16 fits 3000

  pub parse_type_alias_declaration-Ends :
      (known strict : Bool) → Ends known strict (suc n) (parse_type_alias_declaration call)
  unfolding parse_type_alias_declaration
  parse_type_alias_declaration-Ends known strict =
      search (ends_rules, parse_actual_type-Ends, refuse_if-Still) depth 16 fits 3000
