-- ===== src/Parser/Directives.antt =====
-- src/amun_parser_directives.cpp: the directives that stand for expressions.
use amun.Prelude.{ℕ, suc, ◌||◌, ◌++◌, Option, none, some, if◌then◌else◌, ℤ, pos, negsuc}
use amun.Prelude.Text.{Bytes, codes, equal}
use amun.Prelude.Decimal.{to_string}
use amun.Token.{Token}
use amun.Token.{
  token_open_paren, token_close_paren, token_at, token_identifier, token_int64, token_string,
}
use amun.Types.{AmunType, NumberKind, float_32, float_64, integer_64}
use amun.Types.Limits.{number_kind_token_kind, integers_kind_max_value, integers_kind_min_value}
use amun.Ast.{Expression, Expressions}
use amun.Ast.{
  number_expression, string_expression, array_expression, vector_expression, infinity_expression,
}
use amun.Parser.{Parse, Environment, pure, ◌>>=◌, ◌>>◌, gets, report_error}
use amun.Parser.Reading.{consume_kind, assert_kind, choose}
use amun.Parser.Calls.{Calls}
use amun.Parser.Conditional.{token_of}

abbrev signed_text : ℤ → Bytes
signed_text (pos n) = to_string n
signed_text (negsuc n) = codes "-" ++ to_string (suc n)

unfoldable pub as_number_kind : AmunType → Option NumberKind
as_number_kind (AmunType.number kind) = some kind
as_number_kind _ = none

abbrev text_or : Bytes → Option Bytes → Bytes
text_or text (some other) = other
text_or text none = text

abbrev map_text : {A : Type 0} → (A → Bytes) → Option A → Option Bytes
map_text f (some a) = some (f a)
map_text f none = none

-- The literals of `@max_value` and `@min_value`.
unfoldable pub max_value_text : Environment → NumberKind → Bytes
max_value_text environment kind =
    text_or (environment.max_float_text kind) (map_text to_string (integers_kind_max_value kind))

unfoldable pub min_value_text : Environment → NumberKind → Bytes
min_value_text environment kind =
    text_or (environment.lowest_float_text kind)
      (map_text signed_text (integers_kind_min_value kind))

unfoldable pub as_array : Expression → Option (Token × Expressions)
as_array (array_expression position values) = some (position, values)
as_array _ = none

module _ (call : Calls) where
  -- `@max_value(type)` and `@min_value(type)` behind the name.
  unfoldable pub parse_limit : Token → (Environment → NumberKind → Bytes) → Bytes → Parse Expression
  parse_limit directive text name = do
    assert_kind token_open_paren (codes "Expect `(` after @" ++ name)
    type ← call.parse_type
    assert_kind token_close_paren (codes "Expect `)` after @" ++ (name ++ codes " type"))
    environment ← gets (λ s. s.context.environment)
    choose (as_number_kind type)
        (λ kind. pure (
          number_expression
            (token_of (number_kind_token_kind kind) directive.position (text environment kind))
            type))
        (report_error directive.position (codes "@" ++ (name ++ codes " expect only number types")))

  unfoldable pub parse_vector : Token → Parse Expression
  parse_vector directive = do
    expression ← call.parse_expression
    choose (as_array expression) (λ array. pure (vector_expression array.0 array.1))
        (report_error directive.position (codes "Expect Array expression after @vec"))

  -- The number token that `@line` and `@column` stand for.
  abbrev position_number : Token → ℕ → Expression
  position_number directive n =
      number_expression (token_of token_int64 directive.position (to_string n))
        (AmunType.number integer_64)

  unfoldable pub parse_named_directive : Token → Parse Expression
  parse_named_directive directive =
      if equal directive.literal (codes "line")
      then pure (position_number directive directive.position.line_number)
      else if equal directive.literal (codes "column")
      then pure (position_number directive directive.position.column_start)
      else if equal directive.literal (codes "filepath")
      then gets (λ s. string_expression (
          token_of token_string directive.position
            (s.context.environment.resolve_source_path directive.position.file_id)))
      else if equal directive.literal (codes "vec")
      then parse_vector directive
      else if equal directive.literal (codes "max_value")
      then parse_limit directive max_value_text (codes "max_value")
      else if equal directive.literal (codes "min_value")
      then parse_limit directive min_value_text (codes "min_value")
      else if equal directive.literal (codes "infinity32")
      then pure (infinity_expression (AmunType.number float_32))
      else if equal directive.literal (codes "infinity")
          || equal directive.literal (codes "infinity64")
      then pure (infinity_expression (AmunType.number float_64))
      else report_error directive.position
          (codes "No expression directive with name " ++ directive.literal)

  unfoldable pub parse_expressions_directive : Parse Expression
  parse_expressions_directive = do
    hash_token ← consume_kind token_at (codes "Expect `@` before directive name")
    directive ← consume_kind token_identifier (codes "Expect symbol as directive name")
    parse_named_directive directive
