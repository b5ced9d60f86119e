-- ===== src/Parser/Total/Control.antt =====
-- Parsing a statement ends (src/amun_parser.cpp).
use amun.Prelude.{ℕ, suc, Bool, true, false}
use amun.Token.{Token}
use amun.Ast.{Expression, Expressions}
use amun.Parser.Reading.{Test}
use amun.Parser.Primary.{parse_values_while}
use amun.Parser.Rules.{forget-Ends}
use amun.Parser.Calls.{Calls}
use amun.Parser.Control.{
  IfBlocks, SwitchBranches, parse_else_if, parse_else, parse_else_branches, parse_first_branch,
  parse_if_statement, parse_default_branch, parse_switch_branch, parse_switch_branches,
  parse_switch_statement, parse_statements_directive, parse_simple_statement, parse_statement,
}
use amun.Parser.Loops.{
  change_loop_level, ForHead, parse_loop_body, parse_custom_index, parse_for_names, parse_for_head,
  parse_for_range, parse_for_each, parse_for, parse_for_statement, parse_while,
  parse_while_statement,
}
use amun.Parser.Ends.{Ends, Still}
use amun.Parser.Leaves.{ends_rules, still_rules}
use amun.Parser.Total.Checks.{refuse_if-Still}
use amun.Parser.Total.Types.{CallsEnd}
use amun.Parser.Total.Primary.{parse_values_while-Ends}
use amun.Parser.Total.Conditional.{parse_switch_operator-Ends}
use amun.Parser.Total.Statements.{
  parse_expression_statement-Ends, parse_block_statement-Ends, parse_return_statement-Ends,
  parse_defer_statement-Ends, parse_break_statement-Ends, parse_continue_statement-Ends,
  parse_field_declaration-Ends, parse_destructuring_field_declaration-Ends,
  parse_compiletime_constants_declaraion-Ends,
}

pub change_loop_level-Still : (f : ℕ → ℕ) → Still (change_loop_level f)
unfolding change_loop_level
change_loop_level-Still f = search still_rules depth 12

module _ {n : ℕ} (call : Calls) (ends : CallsEnd n call) where
  parse_loop_body-Ends : Ends false false n (parse_loop_body call)
  unfolding parse_loop_body
  parse_loop_body-Ends =
      search (ends_rules, ends.statement, change_loop_level-Still) depth 12 fits 3000

  parse_else_if-Ends : (t : Token) (b : IfBlocks) → Ends false false n (parse_else_if call t b)
  unfolding parse_else_if
  parse_else_if-Ends t b = search (ends_rules, ends.expression, ends.statement) depth 12 fits 3000

  parse_else-Ends : (t : Token) (b : IfBlocks) → Ends false false n (parse_else call t b)
  unfolding parse_else
  parse_else-Ends t b = search (ends_rules, refuse_if-Still, ends.statement) depth 12 fits 3000

  parse_else_branches-Ends : (b : IfBlocks) → Ends false false n (parse_else_branches call b)
  unfolding parse_else_branches
  parse_else_branches-Ends b =
      search (ends_rules, parse_else_if-Ends, parse_else-Ends, ends.rounds) depth 12 fits 3000

  parse_first_branch-Ends :
      (known strict : Bool) → Ends known strict (suc n) (parse_first_branch call)
  unfolding parse_first_branch
  parse_first_branch-Ends known strict =
      search (ends_rules, ends.expression, ends.statement) depth 16 fits 3000

  parse_if_statement-Ends :
      (known strict : Bool) → Ends known strict (suc n) (parse_if_statement call)
  unfolding parse_if_statement
  parse_if_statement-Ends known strict =
      search (ends_rules, parse_first_branch-Ends, parse_else_branches-Ends) depth 24 fits 3000

  parse_custom_index-Ends : (h : ForHead) → Ends false false n (parse_custom_index call h)
  unfolding parse_custom_index
  parse_custom_index-Ends h = search ends_rules depth 12 fits 3000

  parse_for_names-Ends :
      (t : Token) (e : Expression) → Ends false false n (parse_for_names call t e)
  unfolding parse_for_names
  parse_for_names-Ends t e =
      search (ends_rules, ends.expression, parse_custom_index-Ends) depth 12 fits 3000

  parse_for_head-Ends : (t : Token) → Ends false false n (parse_for_head call t)
  unfolding parse_for_head
  parse_for_head-Ends t =
      search (ends_rules, ends.expression, parse_for_names-Ends) depth 12 fits 3000

  parse_for_range-Ends : (t : Token) (h : ForHead) → Ends false false n (parse_for_range call t h)
  unfolding parse_for_range
  parse_for_range-Ends t h =
      search (ends_rules, ends.expression, refuse_if-Still, parse_loop_body-Ends) depth 12 fits 3000

  parse_for_each-Ends : (t : Token) (h : ForHead) → Ends false false n (parse_for_each call t h)
  unfolding parse_for_each
  parse_for_each-Ends t h = search (ends_rules, parse_loop_body-Ends) depth 12 fits 3000

  parse_for-Ends : (t : Token) → Ends false false n (parse_for call t)
  unfolding parse_for
  parse_for-Ends t =
      search (ends_rules, parse_for_head-Ends, parse_for_range-Ends, parse_for_each-Ends) depth 12
        fits 3000

  parse_for_statement-Ends :
      (known strict : Bool) → Ends known strict (suc n) (parse_for_statement call)
  unfolding parse_for_statement
  parse_for_statement-Ends known strict =
      search (ends_rules, parse_loop_body-Ends, parse_for-Ends) depth 12 fits 3000

  parse_while-Ends : (known strict : Bool) → Ends known strict (suc n) (parse_while call)
  unfolding parse_while
  parse_while-Ends known strict =
      search (ends_rules, ends.expression, parse_loop_body-Ends) depth 16 fits 3000

  parse_while_statement-Ends :
      (known strict : Bool) → Ends known strict (suc n) (parse_while_statement call)
  unfolding parse_while_statement
  parse_while_statement-Ends known strict = search (ends_rules, parse_while-Ends) depth 16 fits 3000

  parse_default_branch-Ends :
      (t : Token) (b : SwitchBranches) → Ends true true n (parse_default_branch call t b)
  unfolding parse_default_branch
  parse_default_branch-Ends t b =
      search (ends_rules, ends.statement, refuse_if-Still) depth 12 fits 3000

  parse_values_while_any :
      (known : Bool) (test : Test) (values : Expressions)
      → Ends known false n (parse_values_while call test values)
  parse_values_while_any known test values =
      forget-Ends known (parse_values_while call test values)
        (parse_values_while-Ends call ends test values)

  parse_switch_branch-Ends : (b : SwitchBranches) → Ends true true n (parse_switch_branch call b)
  unfolding parse_switch_branch
  parse_switch_branch-Ends b =
      search (ends_rules, ends.statement, parse_values_while_any) depth 12 fits 3000

  parse_switch_branches-Ends : (t : Token) → Ends false false n (parse_switch_branches call t)
  unfolding parse_switch_branches
  parse_switch_branches-Ends t =
      search (ends_rules, parse_default_branch-Ends, parse_switch_branch-Ends, ends.rounds) depth 12
        fits 3000

  parse_switch_statement-Ends :
      (known strict : Bool) → Ends known strict (suc n) (parse_switch_statement call)
  unfolding parse_switch_statement
  parse_switch_statement-Ends known strict =
      search (ends_rules, ends.expression, parse_switch_operator-Ends, parse_switch_branches-Ends)
        depth 12 fits 3000

  parse_statements_directive-Ends :
      (known strict : Bool) → Ends known strict (suc n) (parse_statements_directive call)
  unfolding parse_statements_directive
  parse_statements_directive-Ends known strict =
      search (ends_rules, ends.statement) depth 12 fits 3000

  parse_simple_statement-Ends :
      (known strict : Bool) → Ends known strict (suc n) (parse_simple_statement call)
  unfolding parse_simple_statement
  parse_simple_statement-Ends known strict =
      search
        (
          ends_rules, parse_return_statement-Ends, parse_defer_statement-Ends,
          parse_break_statement-Ends, parse_continue_statement-Ends, parse_block_statement-Ends,
          parse_statements_directive-Ends, parse_expression_statement-Ends,
        )
        depth 12 fits 3000

  pub parse_statement-Ends :
      (known strict : Bool) → Ends known strict (suc n) (parse_statement call)
  unfolding parse_statement
  parse_statement-Ends known strict =
      search
        (
          ends_rules, parse_destructuring_field_declaration-Ends, parse_field_declaration-Ends,
          parse_compiletime_constants_declaraion-Ends, parse_if_statement-Ends,
          parse_for_statement-Ends, parse_while_statement-Ends, parse_switch_statement-Ends,
          parse_simple_statement-Ends,
        )
        depth 12 fits 3000
