-- ===== src/Parser/Breaks.antt =====
-- src/amun_parser.cpp: `break` and `continue`, with the number of loops that they name.
use amun.Prelude.{
  ℕ, ◌==◌, Bool, true, false, not, List, [], ◌∷◌, ◌++◌, Option, none, some, if◌then◌else◌, ℤ, pos,
  negsuc, ltb,
}
use amun.Prelude.Text.{Bytes, codes}
use amun.Prelude.Decimal.{to_string}
use amun.Token.{Token, TokenSpan}
use amun.Token.{token_semicolon, token_break, token_continue}
use amun.Token.Operators.{is_float_number_token}
use amun.Ast.{Statement}
use amun.Ast.{break_statement, continue_statement}
use amun.Parser.{
  Parse, Action, AstNodeScope, condition_scope, pure, ◌>>=◌, ◌>>◌, gets, value, report_error,
}
use amun.Parser.Reading.{consume_kind, assert_kind, when, choose, is_current_kind}
use amun.Parser.Checks.{refuse_if, number_of, as_number}
use amun.Parser.Calls.{Calls}

abbrev pub is_condition_scope : AstNodeScope → Bool
is_condition_scope condition_scope = true
is_condition_scope _ = false

-- `loop_levels_stack.top()`
unfoldable pub top_of : List ℕ → Option ℕ
top_of [] = none
top_of (level ∷ levels) = some level

-- `current_ast_scope != CONDITION_SCOPE or loop_levels_stack.top() == 0`; the top is read in the scope of
-- a condition only.
unfoldable pub check_inside_loop : TokenSpan → Bytes → Action
check_inside_loop position message = do
  s ← gets (λ s. s)
  if is_condition_scope s.current_ast_scope
      then (do level ← value (top_of s.loop_levels_stack); refuse_if (level == 0) position message)
      else report_error position message

abbrev pub is_positive : ℤ → Bool
is_positive (pos n) = ltb 0 n
is_positive (negsuc n) = false

abbrev pub exceeds : ℤ → ℕ → Bool
exceeds (pos n) level = ltb level n
exceeds (negsuc n) level = false

-- The messages of `break` and of `continue`.
pub record TimesMessages : Type 0 where
  pub outside : Bytes
  pub floating : Bytes
  pub positive : Bytes
  pub bigger : Bytes
  pub number : Bytes

abbrev pub break_messages : TimesMessages
break_messages = record {
  outside = codes "break keyword can only be used inside at last one while loop";
  floating = codes "expect break keyword times to be integer but found floating pointer value";
  positive = codes "expect break times must be positive value and at last 1";
  bigger =
      codes
        "break times can't be bigger than the number of loops you have, expect less than or equals ";
  number = codes "break keyword times must be a number";
}

abbrev pub continue_messages : TimesMessages
continue_messages = record {
  outside = codes "continue keyword can only be used inside at last one while loop";
  floating = codes "expect continue times to be integer but found floating pointer value";
  positive = codes "expect continue times must be positive value and at last 1";
  bigger =
      codes
        "continue times can't be bigger than the number of loops you have, expect less than or equals ";
  number = codes "continue keyword times must be a number";
}

-- The number of loops that `break` and `continue` name.
unfoldable pub check_times : TimesMessages → Token → Token → Parse ℤ
check_times m keyword number_value = do
  refuse_if (is_float_number_token number_value) keyword.position m.floating
  times ← value (number_of number_value.literal)
  refuse_if (not (is_positive times)) keyword.position m.positive
  levels ← gets (λ s. s.loop_levels_stack)
  level ← value (top_of levels)
  refuse_if (exceeds times level) keyword.position (m.bigger ++ to_string level)
  assert_kind token_semicolon (codes "Expect semicolon `;` after brea statement")
  pure times

module _ (call : Calls) where
  -- `break` and `continue` behind the keyword, which differ in their messages and in what they make.
  unfoldable pub parse_times :
      TimesMessages → Bytes → (Token → Bool → ℤ → Statement) → Token → Parse Statement
  parse_times m semicolon make keyword = do
    check_inside_loop keyword.position m.outside
    when (is_current_kind token_semicolon)
        (do assert_kind token_semicolon semicolon; pure (make keyword false (pos 1)))
        (do
          times ← call.parse_expression
          number ← choose (as_number times) pure (report_error keyword.position m.number)
          times_int ← check_times m keyword number.0
          pure (make keyword true times_int))

  unfoldable pub parse_break_statement : Parse Statement
  parse_break_statement = do
    break_token ← consume_kind token_break (codes "Expect break keyword.")
    parse_times break_messages (codes "Expect semicolon `;` after break call statement")
        break_statement break_token

  unfoldable pub parse_continue_statement : Parse Statement
  parse_continue_statement = do
    continue_token ← consume_kind token_continue (codes "Expect continue keyword.")
    parse_times continue_messages (codes "Expect semicolon `;` after defer call statement")
        continue_statement continue_token
