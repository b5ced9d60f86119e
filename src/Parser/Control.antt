-- ===== src/Parser/Control.antt =====
-- src/amun_parser.cpp and src/amun_parser_directives.cpp: the if and switch statements, the directives for
-- statements, and `parse_statement`.
use amun.Prelude.{Bool, true, false, ◌++◌, Option, none, some, if◌then◌else◌}
use amun.Prelude.Text.{codes, equal}
use amun.Token.{Token}
use amun.Token.{
  token_open_paren, token_close_paren, token_open_brace, token_close_brace, token_identifier,
  token_var, token_const, token_if, token_else, token_for, token_while, token_switch, token_return,
  token_defer, token_break, token_continue, token_at, token_true, token_right_arrow,
}
use amun.Ast.{
  Expression, Expressions, Statement, ConditionalBlocks, SwitchCases, append_block, append_case,
}
use amun.Ast.{if_statement, switch_statement, boolean_expression, no_cases, no_blocks}
use amun.Parser.{Parse, condition_scope, pure, ◌>>=◌, ◌>>◌, gets, report_error, set_ast_scope}
use amun.Parser.Reading.{
  consume_kind, assert_kind, advanced_token, when, choose, repeat, again, is_current_kind,
  is_next_kind, is_source_available, is_not, ◌and_then◌,
}
use amun.Parser.Checks.{refuse_if}
use amun.Parser.Calls.{Calls}
use amun.Parser.Primary.{parse_values_while}
use amun.Parser.Conditional.{parse_switch_operator}
use amun.Parser.Statements.{
  parse_expression_statement, parse_block_statement, parse_return_statement, parse_defer_statement,
  parse_field_declaration, parse_destructuring_field_declaration,
  parse_compiletime_constants_declaraion,
}
use amun.Parser.Breaks.{parse_break_statement, parse_continue_statement}
use amun.Parser.Loops.{parse_for_statement, parse_while_statement}

-- `conditional_blocks` and `has_else_branch` of `parse_if_statement`.
pub record IfBlocks : Type 0 where
  pub conditional_blocks : ConditionalBlocks
  pub has_else_branch : Bool

-- `switch_cases`, `default_branch` and `has_default_case` of `parse_switch_statement`.
pub record SwitchBranches : Type 0 where
  pub switch_cases : SwitchCases
  pub default_branch : Option (Token × Statement)

abbrev has_default : Option (Token × Statement) → Bool
has_default (some branch) = true
has_default none = false

-- The default branch becomes the last case, with the argument for its value.
abbrev with_default : Expression → SwitchCases → Option (Token × Statement) → SwitchCases
with_default argument cases (some (keyword, body)) =
    append_case cases keyword (Expressions.cons argument Expressions.nil) body
with_default argument cases none = cases

unfoldable pub require_complete : Statement → Option Statement
require_complete (switch_statement keyword argument cases op has_default_case check) =
    some (switch_statement keyword argument cases op has_default_case true)
require_complete _ = none

module _ (call : Calls) where
  unfoldable pub parse_else_if : Token → IfBlocks → Parse (Bool × IfBlocks)
  parse_else_if else_token b = do
    advanced_token
    condition ← call.parse_expression
    body ← call.parse_statement
    again (record b {
      conditional_blocks = append_block b.conditional_blocks else_token condition body;
    })

  unfoldable pub parse_else : Token → IfBlocks → Parse (Bool × IfBlocks)
  parse_else else_token b = do
    refuse_if b.has_else_branch else_token.position (codes "You already declared else branch")
    body ← call.parse_statement
    again (record {
      conditional_blocks =
          append_block b.conditional_blocks else_token
            (boolean_expression (record else_token { kind = token_true })) body;
      has_else_branch = true;
    })

  unfoldable pub parse_else_branches : IfBlocks → Parse IfBlocks
  parse_else_branches =
      repeat call.rounds (is_source_available and_then is_current_kind token_else) (λ b. do
        else_token ← consume_kind token_else (codes "Expect else keyword.")
        when (is_current_kind token_if) (parse_else_if else_token b) (parse_else else_token b))

  unfoldable pub parse_first_branch : Parse IfBlocks
  parse_first_branch = do
    if_token ← consume_kind token_if (codes "Expect If keyword.")
    assert_kind token_open_paren (codes "Expect ( before if condition")
    condition ← call.parse_expression
    assert_kind token_close_paren (codes "Expect ) after if condition")
    then_block ← call.parse_statement
    pure (record {
      conditional_blocks = append_block no_blocks if_token condition then_block;
      has_else_branch = false;
    })

  unfoldable pub parse_if_statement : Parse Statement
  parse_if_statement = do
    parent_node_scope ← gets (λ s. s.current_ast_scope)
    set_ast_scope condition_scope
    first ← parse_first_branch
    b ← parse_else_branches first
    set_ast_scope parent_node_scope
    pure (if_statement b.conditional_blocks b.has_else_branch)

  unfoldable pub parse_default_branch : Token → SwitchBranches → Parse (Bool × SwitchBranches)
  parse_default_branch keyword b = do
    refuse_if (has_default b.default_branch) keyword.position
        (codes "Switch statementscan't has more than one default branch")
    else_keyword ← consume_kind token_else (codes "Expect else keyword in switch default branch")
    arrow ←
        consume_kind token_right_arrow
          (codes "Expect -> after else keyword in switch default branch")
    body ← call.parse_statement
    again (record b { default_branch = some (else_keyword, body) })

  unfoldable pub parse_switch_branch : SwitchBranches → Parse (Bool × SwitchBranches)
  parse_switch_branch b = do
    values ←
        parse_values_while call
          (is_source_available and_then is_not (is_current_kind token_right_arrow)) Expressions.nil
    right_arrow ← consume_kind token_right_arrow (codes "Expect -> after branch value")
    branch ← call.parse_statement
    again (record b { switch_cases = append_case b.switch_cases right_arrow values branch })

  unfoldable pub parse_switch_branches : Token → Parse SwitchBranches
  parse_switch_branches keyword =
      repeat call.rounds (is_source_available and_then is_not (is_current_kind token_close_brace))
        (λ b.
          when (is_current_kind token_else) (parse_default_branch keyword b)
            (parse_switch_branch b))
        (record { switch_cases = no_cases; default_branch = none })

  unfoldable pub parse_switch_statement : Parse Statement
  parse_switch_statement = do
    keyword ← consume_kind token_switch (codes "Expect `switch` keyword.")
    assert_kind token_open_paren (codes "Expect ( before switch argument")
    argument ← call.parse_expression
    op ← parse_switch_operator
    assert_kind token_close_paren (codes "Expect ) after switch argument")
    assert_kind token_open_brace (codes "Expect { after switch value")
    b ← parse_switch_branches keyword
    assert_kind token_close_brace (codes "Expect } after switch Statement last branch")
    pure (
        switch_statement keyword argument (with_default argument b.switch_cases b.default_branch) op
          (has_default b.default_branch) false)

  unfoldable pub parse_statements_directive : Parse Statement
  parse_statements_directive = do
    hash_token ← consume_kind token_at (codes "Expect `@` before directive name")
    directive ← consume_kind token_identifier (codes "Expect symbol as directive name")
    if equal directive.literal (codes "complete")
        then (do
          statement ← call.parse_statement
          choose (require_complete statement) pure
              (report_error directive.position (codes "@complete expect switch statement")))
        else report_error directive.position
            (codes "No statement directive with name " ++ directive.literal)

  -- The cases of the switch over the kind, the later ones first.
  unfoldable pub parse_simple_statement : Parse Statement
  parse_simple_statement = when (is_current_kind token_return) (parse_return_statement call) (
      when (is_current_kind token_defer) (parse_defer_statement call) (
        when (is_current_kind token_break) (parse_break_statement call) (
          when (is_current_kind token_continue) (parse_continue_statement call) (
            when (is_current_kind token_open_brace) (parse_block_statement call) (
              when (is_current_kind token_at) parse_statements_directive
                (parse_expression_statement call))))))

  unfoldable pub parse_statement : Parse Statement
  parse_statement =
      when (is_current_kind token_var)
        (when (is_next_kind token_open_paren) (parse_destructuring_field_declaration call false)
          (parse_field_declaration call false))
        (when (is_current_kind token_const) (parse_compiletime_constants_declaraion call) (
          when (is_current_kind token_if) parse_if_statement (
            when (is_current_kind token_for) (parse_for_statement call) (
              when (is_current_kind token_while) (parse_while_statement call) (
                when (is_current_kind token_switch) parse_switch_statement
                  parse_simple_statement)))))
