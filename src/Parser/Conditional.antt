-- ===== src/Parser/Conditional.antt =====
-- src/amun_parser.cpp: the if and switch expressions and the operator of a switch.
use amun.Prelude.{
  ℕ, zero, suc, ◌-◌, Bool, true, false, not, List, [], ◌∷◌, ◌++◌, if◌then◌else◌, ltb, ◌==◌,
}
use amun.Prelude.Text.{Bytes, codes}
use amun.Token.{Token, TokenSpan, TokenKind}
use amun.Token.{
  token_comma, token_open_paren, token_close_paren, token_open_brace, token_close_brace,
  token_right_arrow, token_else, token_if, token_switch, token_true, token_equal_equal,
}
use amun.Token.Operators.{comparisons_operators}
use amun.Ast.{Expression, Expressions, MaybeExpression, append_expression, count_expressions}
use amun.Ast.{
  if_expression, switch_expression, boolean_expression, number_expression, enum_access_expression,
}
use amun.Parser.{Parse, pure, done, ◌>>=◌, ◌>>◌, report_error}
use amun.Parser.Reading.{
  peek_current, peek_and_advance_token, consume_kind, assert_kind, advanced_token, when, repeat,
  again, is_current_kind, is_source_available, is_not, ◌and_then◌,
}
use amun.Parser.Checks.{refuse_if, check_unnecessary_semicolon_warning}
use amun.Parser.Calls.{Calls}

unfoldable pub parse_switch_operator : Parse TokenKind
parse_switch_operator =
    when (is_current_kind token_comma)
      (do
        advanced_token
        op_token ← peek_and_advance_token
        refuse_if (not (comparisons_operators op_token.kind)) op_token.position
            (codes "Switch operator must be a comparions operators only")
        pure op_token.kind)
      (pure token_equal_equal)

-- `tokens`, `conditions`, `values` and `has_else_branch` of `parse_if_expression`.
pub record IfParts : Type 0 where
  pub tokens : List Token
  pub conditions : Expressions
  pub values : Expressions
  pub has_else_branch : Bool

abbrev pub add_branch : IfParts → Expression → Expression → Bool → IfParts
add_branch p condition value has_else = record p {
  conditions = append_expression p.conditions condition;
  values = append_expression p.values value;
  has_else_branch = has_else;
}

abbrev first_branch : Token → Expression → Expression → IfParts
first_branch keyword condition value = record {
  tokens = keyword ∷ [];
  conditions = Expressions.cons condition Expressions.nil;
  values = Expressions.cons value Expressions.nil;
  has_else_branch = false;
}

-- A case of a switch expression is a number or an element of an enumeration.
unfoldable pub is_case_value : Expression → Bool
is_case_value (number_expression _ _) = true
is_case_value (enum_access_expression _ _ _ _) = true
is_case_value _ = false

-- `cases`, `values` and `default_value` of `parse_switch_expression`.
pub record SwitchParts : Type 0 where
  pub cases : Expressions
  pub values : Expressions
  pub default_value : MaybeExpression

-- `for (i < count) values.push_back(value)`
abbrev push_times : ℕ → Expressions → Expression → Expressions
push_times zero values value = values
push_times (suc n) values value = push_times n (append_expression values value) value

abbrev pub token_of : TokenKind → TokenSpan → Bytes → Token
token_of kind position literal = record { kind = kind; position = position; literal = literal }

module _ (call : Calls) where
  -- `{ value }` with the messages of the place.
  unfoldable pub parse_braced : Bytes → Bytes → Parse Expression
  parse_braced start end = do
    assert_kind token_open_brace start
    value ← call.parse_expression
    assert_kind token_close_brace end
    pure value

  unfoldable pub parse_condition : Parse Expression
  parse_condition = do
    assert_kind token_open_paren (codes "Expect ( before if condition")
    condition ← call.parse_expression
    assert_kind token_close_paren (codes "Expect ) after if condition")
    pure condition

  unfoldable pub parse_else_if_value : IfParts → Parse (Bool × IfParts)
  parse_else_if_value p = do
    advanced_token
    condition ← parse_condition
    value ←
        parse_braced (codes "Expect { at the start of `else if` expression value")
          (codes "Expect } at the end of `else if` expression value")
    again (add_branch p condition value p.has_else_branch)

  unfoldable pub parse_else_value : IfParts → Parse (Bool × IfParts)
  parse_else_value p = do
    current ← peek_current
    refuse_if p.has_else_branch current.position
        (codes "else branch is declared twice in the same if expression")
    value ←
        parse_braced (codes "Expect { at the start of `else` expression value")
          (codes "Expect } at the end of `else` expression value")
    again (add_branch p (boolean_expression (token_of token_true current.position [])) value true)

  unfoldable pub parse_if_expression : Parse Expression
  parse_if_expression = do
    keyword ← peek_and_advance_token
    condition ← parse_condition
    value ←
        parse_braced (codes "Expect { at the start of if expression value")
          (codes "Expect } at the end of if expression value")
    parts ←
        repeat call.rounds (is_current_kind token_else)
          (λ p. do
            else_token ← peek_and_advance_token
            let q = record p { tokens = p.tokens ++ else_token ∷ [] }
            when (is_current_kind token_if) (parse_else_if_value q) (parse_else_value q))
          (first_branch keyword condition value)
    pure (if_expression parts.tokens parts.conditions parts.values)

  -- `else -> value`: `has_default_branch` is tested and never set before.
  unfoldable pub parse_switch_default : SwitchParts → Parse (Bool × SwitchParts)
  parse_switch_default p = do
    assert_kind token_else (codes "Expect else keyword in switch default branch")
    assert_kind token_right_arrow (codes "Expect -> after else keyword in switch default branch")
    default_value ← call.parse_expression
    check_unnecessary_semicolon_warning
    again (record p { default_value = MaybeExpression.shared default_value })

  -- One round of the `do` loop over the values of a case.
  unfoldable pub parse_case_value : Token → SwitchParts → Parse SwitchParts
  parse_case_value keyword p = do
    when (is_current_kind token_comma)
        (if ltb (count_expressions p.values) (count_expressions p.cases)
          then advanced_token
          else (do
            current ← peek_current
            report_error current.position
                (codes "In Switch expression can't use `,` with no value before it")))
        done
    case_expression ← call.parse_expression
    refuse_if (not (is_case_value case_expression)) keyword.position
        (codes "Switch expression case must be integer or enum element")
    pure (record p { cases = append_expression p.cases case_expression })

  unfoldable pub parse_switch_case : Token → SwitchParts → Parse (Bool × SwitchParts)
  parse_switch_case keyword p = do
    first ← parse_case_value keyword p
    q ←
        repeat call.rounds (is_current_kind token_comma)
          (λ q. do r ← parse_case_value keyword q; again r) first
    assert_kind token_right_arrow (codes "Expect -> after branch value")
    value ← call.parse_expression
    check_unnecessary_semicolon_warning
    again (record q {
      values = push_times (count_expressions q.cases - count_expressions q.values) q.values value;
    })

  unfoldable pub parse_switch_cases : Token → Parse SwitchParts
  parse_switch_cases keyword =
      repeat call.rounds (is_source_available and_then is_not (is_current_kind token_close_brace))
        (λ p.
          when (is_current_kind token_else) (parse_switch_default p) (parse_switch_case keyword p))
        (record {
          cases = Expressions.nil;
          values = Expressions.nil;
          default_value = MaybeExpression.null;
        })

  unfoldable pub parse_switch_expression : Parse Expression
  parse_switch_expression = do
    keyword ← consume_kind token_switch (codes "Expect switch keyword.")
    assert_kind token_open_paren (codes "Expect ( before swich argument")
    argument ← call.parse_expression
    op ← parse_switch_operator
    assert_kind token_close_paren (codes "Expect ) after swich argument")
    assert_kind token_open_brace (codes "Expect { after switch value")
    p ← parse_switch_cases keyword
    refuse_if (count_expressions p.cases == 0) keyword.position
        (codes "Switch expression must has at last one case and default case")
    assert_kind token_close_brace (codes "Expect } after switch Statement last branch")
    pure (switch_expression keyword argument p.cases p.values p.default_value op)
