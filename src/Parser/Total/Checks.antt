-- ===== src/Parser/Total/Checks.antt =====
-- The checks of src/amun_parser.cpp end; all but the one of the superfluous semicolon read no token.
use amun.Prelude.{ℕ, Bool, false}
use amun.Prelude.Text.{Bytes}
use amun.Token.{TokenKind, TokenSpan, Token}
use amun.Ast.{Expression}
use amun.Token.Operators.{TwoTokensOperator}
use amun.Parser.{FunctionKind}
use amun.Parser.Checks.{
  refuse_if, check_generic_parameter_name, check_function_kind_paramters_count,
  check_compiletime_constants_expression, unexpected_token_error, unexpected_message,
  check_unnecessary_semicolon_warning, get_number_kind,
}
use amun.Parser.Ends.{Ends, Still}
use amun.Parser.Leaves.{ends_rules, still_rules}

pub refuse_if-Still :
    (c : Bool) (position : TokenSpan) (message : Bytes) → Still (refuse_if c position message)
unfolding refuse_if
refuse_if-Still c position message = search still_rules

pub check_generic_parameter_name-Still : (name : Token) → Still (check_generic_parameter_name name)
unfolding check_generic_parameter_name
check_generic_parameter_name-Still name = search (still_rules, refuse_if-Still) depth 12

pub check_function_kind_paramters_count-Still :
    (kind : FunctionKind) (count : ℕ) (span : TokenSpan)
    → Still (check_function_kind_paramters_count kind count span)
unfolding check_function_kind_paramters_count
check_function_kind_paramters_count-Still kind count span =
    search (still_rules, refuse_if-Still) depth 12

pub check_compiletime_constants_expression-Still :
    (expression : Expression) (position : TokenSpan)
    → Still (check_compiletime_constants_expression expression position)
unfolding check_compiletime_constants_expression
check_compiletime_constants_expression-Still expression position = search refuse_if-Still

unexpected_message-Still : (op : TwoTokensOperator) → Still (unexpected_message op)
unfolding unexpected_message
unexpected_message-Still op = search still_rules

pub unexpected_token_error-Ends {ℓ} :
    {A : Type ℓ} (known strict : Bool) (n : ℕ)
    → Ends known strict n (unexpected_token_error {A = A})
unfolding unexpected_token_error
unexpected_token_error-Ends known strict n =
    search (ends_rules, refuse_if-Still, unexpected_message-Still) depth 24 fits 3000

pub check_unnecessary_semicolon_warning-Ends :
    (known : Bool) (n : ℕ) → Ends known false n check_unnecessary_semicolon_warning
unfolding check_unnecessary_semicolon_warning
check_unnecessary_semicolon_warning-Ends known n = search ends_rules depth 12

pub get_number_kind-Still : (token : TokenKind) → Still (get_number_kind token)
unfolding get_number_kind
get_number_kind-Still token = search still_rules depth 12
