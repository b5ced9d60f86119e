-- ===== src/Parser/Loops.antt =====
-- src/amun_parser.cpp: the loops `for` and `while`, over the stack of loop levels.
use amun.Prelude.{ℕ, ◌+◌, ◌-◌, Bool, true, false, List, [], ◌∷◌, Option, none, some}
use amun.Prelude.Text.{Bytes, codes}
use amun.Token.{Token}
use amun.Token.{
  token_comma, token_open_paren, token_close_paren, token_open_brace, token_identifier, token_colon,
  token_for, token_while, token_dot_dot,
}
use amun.Ast.{Expression, MaybeExpression, Statement}
use amun.Ast.{for_range_statement, for_each_statement, forever_statement, while_statement}
use amun.Parser.{
  Parse, Action, condition_scope, pure, ◌>>=◌, ◌>>◌, gets, value, report_error, set_ast_scope,
  set_loop_levels,
}
use amun.Parser.Reading.{
  peek_previous, consume_kind, assert_kind, advanced_token, when, choose, is_current_kind,
  ◌or_else◌,
}
use amun.Parser.Checks.{refuse_if}
use amun.Parser.Calls.{Calls}
use amun.Parser.Operands.{as_literal}

-- `loop_levels_stack.top() += 1` and `-= 1`; an empty stack has no top.
abbrev change_top : (ℕ → ℕ) → List ℕ → Option (List ℕ)
change_top f [] = none
change_top f (level ∷ levels) = some (f level ∷ levels)

unfoldable pub change_loop_level : (ℕ → ℕ) → Action
change_loop_level f = do
  levels ← gets (λ s. s.loop_levels_stack)
  changed ← value (change_top f levels)
  set_loop_levels changed

-- `element_name`, `index_name`, `has_custom_index_name` and `expr` of `parse_for_statement`.
pub record ForHead : Type 0 where
  pub element_name : Bytes
  pub index_name : Bytes
  pub has_custom_index_name : Bool
  pub expr : Expression

abbrev default_head : Expression → ForHead
default_head expr = record {
  element_name = codes "it";
  index_name = codes "it_index";
  has_custom_index_name = false;
  expr = expr;
}

module _ (call : Calls) where
  -- `loop_levels_stack.top() += 1; body = parse_statement(); loop_levels_stack.top() -= 1;`
  unfoldable pub parse_loop_body : Parse Statement
  parse_loop_body = do
    change_loop_level (λ level. level + 1)
    body ← call.parse_statement
    change_loop_level (λ level. level - 1)
    pure body

  -- The names in front of `:`, where there are any, and the collection behind them.
  unfoldable pub parse_custom_index : ForHead → Parse ForHead
  parse_custom_index head = do
    previous ← peek_previous
    advanced_token
    name ← consume_kind token_identifier (codes "Expect element name")
    pure (record head {
      index_name = previous.literal;
      has_custom_index_name = true;
      element_name = name.literal;
    })

  unfoldable pub parse_for_names : Token → Expression → Parse ForHead
  parse_for_names keyword expr = do
    literal ←
        choose (as_literal expr) pure
          (report_error keyword.position (codes "Optional named variable must be identifier"))
    head ← when (is_current_kind token_comma) (parse_custom_index (default_head expr)) (do
      previous ← peek_previous
      pure (record (default_head expr) { element_name = previous.literal }))
    assert_kind token_colon (codes "Expect `:` after element name in foreach")
    collection ← call.parse_expression
    pure (record head { expr = collection })

  unfoldable pub parse_for_head : Token → Parse ForHead
  parse_for_head keyword = do
    expr ← call.parse_expression
    when (is_current_kind token_colon or_else is_current_kind token_comma)
        (parse_for_names keyword expr) (pure (default_head expr))

  unfoldable pub parse_for_range : Token → ForHead → Parse Statement
  parse_for_range keyword head = do
    refuse_if head.has_custom_index_name keyword.position
        (codes "for range has no index name to override")
    advanced_token
    range_end ← call.parse_expression
    step ←
        when (is_current_kind token_colon)
          (do advanced_token; e ← call.parse_expression; pure (MaybeExpression.shared e))
          (pure MaybeExpression.null)
    assert_kind token_close_paren (codes "Expect ) after for names and collection")
    body ← parse_loop_body
    pure (for_range_statement keyword head.element_name head.expr range_end step body)

  unfoldable pub parse_for_each : Token → ForHead → Parse Statement
  parse_for_each keyword head = do
    assert_kind token_close_paren (codes "Expect ) after for names and collection")
    body ← parse_loop_body
    pure (for_each_statement keyword head.element_name head.index_name head.expr body)

  unfoldable pub parse_for : Token → Parse Statement
  parse_for keyword = do
    assert_kind token_open_paren (codes "Expect ( before for names and collection")
    head ← parse_for_head keyword
    when (is_current_kind token_dot_dot) (parse_for_range keyword head)
        (parse_for_each keyword head)

  unfoldable pub parse_for_statement : Parse Statement
  parse_for_statement = do
    parent_node_scope ← gets (λ s. s.current_ast_scope)
    set_ast_scope condition_scope
    keyword ← consume_kind token_for (codes "Expect for keyword.")
    statement ←
        when (is_current_kind token_open_brace)
          (do body ← parse_loop_body; pure (forever_statement keyword body)) (parse_for keyword)
    set_ast_scope parent_node_scope
    pure statement

  unfoldable pub parse_while : Parse Statement
  parse_while = do
    keyword ← consume_kind token_while (codes "Expect while keyword.")
    assert_kind token_open_paren (codes "Expect ( before while condition")
    condition ← call.parse_expression
    assert_kind token_close_paren (codes "Expect ) after while condition")
    body ← parse_loop_body
    pure (while_statement keyword condition body)

  unfoldable pub parse_while_statement : Parse Statement
  parse_while_statement = do
    parent_node_scope ← gets (λ s. s.current_ast_scope)
    set_ast_scope condition_scope
    statement ← parse_while
    set_ast_scope parent_node_scope
    pure statement
