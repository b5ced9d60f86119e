-- ===== src/Parser/Statements.antt =====
-- src/amun_parser.cpp: the simple statements and the declarations of variables, constants and aliases.
use amun.Prelude.{Bool, true, false, List, [], ◌∷◌, ◌++◌, Option, none, some}
use amun.Prelude.Text.{Bytes, codes}
use amun.Token.{Token}
use amun.Token.{
  token_comma, token_open_paren, token_close_paren, token_open_brace, token_close_brace,
  token_identifier, token_semicolon, token_equal, token_colon, token_var, token_undefined,
  token_return, token_defer, token_type,
}
use amun.ScopedMap
use amun.Types.{AmunType, Types, MaybeType}
use amun.Types.Queries.{is_enum_type, is_enum_element_type}
use amun.AliasTable
use amun.Ast.{Expression, MaybeExpression, Statement, Statements, append_type}
use amun.Ast.{
  block_statement, field_declaration, destructuring_declaraion, const_declaration, return_statement,
  defer_statement, expression_statement, undefined_expression, call_expression,
}
use amun.Parser.{Parse, Action, pure, ◌>>=◌, ◌>>◌, gets, value, report_error, modify_context}
use amun.Parser.Reading.{
  peek_and_advance_token, consume_kind, assert_kind, advanced_token, when, choose, repeat, again,
  leave, is_current_kind, is_source_available, is_not, ◌and_then◌,
}
use amun.Parser.Checks.{refuse_if, check_compiletime_constants_expression}
use amun.Parser.Calls.{Calls}
use amun.Parser.Levels.{parse_expression}
use amun.Parser.Primary.{parse_statements_while}

unfoldable pub as_call : Expression → Option Expression
as_call (call_expression position callee arguments generic_arguments) =
    some (call_expression position callee arguments generic_arguments)
as_call _ = none

-- `names` and `types` of `parse_destructuring_field_declaration`.
pub record NamesAndTypes : Type 0 where
  pub names : List Token
  pub types : Types

abbrev add_name : NamesAndTypes → Token → AmunType → NamesAndTypes
add_name p name type = record { names = p.names ++ name ∷ []; types = append_type p.types type }

unfoldable pub define_constant : Bytes → Expression → Action
define_constant name expression = do
  constants ← gets (λ s. s.context.constants_table_map)
  defined ← value (ScopedMap.define name expression constants)
  modify_context (λ c. record c { constants_table_map = defined.1 })

module _ (call : Calls) where
  unfoldable pub parse_expression_statement : Parse Statement
  parse_expression_statement = do
    expression ← parse_expression call
    assert_kind token_semicolon (codes "Expect semicolon `;` after field declaration")
    pure (expression_statement expression)

  unfoldable pub parse_block : Parse Statements
  parse_block = do
    open_brace ← consume_kind token_open_brace (codes "Expect { on the start of block.")
    statements ←
        parse_statements_while call
          (is_source_available and_then is_not (is_current_kind token_close_brace))
    close_brace ← consume_kind token_close_brace (codes "Expect } on the end of block.")
    pure statements

  unfoldable pub parse_block_statement : Parse Statement
  parse_block_statement = do statements ← parse_block; pure (block_statement statements)

  unfoldable pub parse_return_statement : Parse Statement
  parse_return_statement = do
    keyword ← consume_kind token_return (codes "Expect return keyword.")
    when (is_current_kind token_semicolon)
        (do
          assert_kind token_semicolon (codes "Expect semicolon `;` after return keyword")
          pure (return_statement keyword MaybeExpression.null false))
        (do
          value ← call.parse_expression
          assert_kind token_semicolon (codes "Expect semicolon `;` after return statement")
          pure (return_statement keyword (MaybeExpression.shared value) true))

  unfoldable pub parse_defer_statement : Parse Statement
  parse_defer_statement = do
    defer_token ← consume_kind token_defer (codes "Expect Defer keyword.")
    expression ← call.parse_expression
    choose (as_call expression)
        (λ call_expression. do
          assert_kind token_semicolon (codes "Expect semicolon `;` after defer call statement")
          pure (defer_statement call_expression))
        (report_error defer_token.position (codes "defer keyword expect call expression"))

  -- A value, or `---` for an undefined one.
  unfoldable pub parse_field_value : Parse Expression
  parse_field_value =
      when (is_current_kind token_undefined)
        (do keyword ← peek_and_advance_token; pure (undefined_expression keyword))
        call.parse_expression

  unfoldable pub parse_typed_field : Token → Bool → Parse Statement
  parse_typed_field name is_global = do
    advanced_token
    type ← call.parse_type
    initalizer ←
        when (is_current_kind token_equal)
          (do
            assert_kind token_equal (codes "Expect `=` after field declaraion name.")
            value ← parse_field_value
            pure (MaybeExpression.shared value))
          (pure MaybeExpression.null)
    assert_kind token_semicolon (codes "Expect semicolon `;` after field declaration")
    pure (field_declaration name type initalizer is_global)

  unfoldable pub parse_field_declaration : Bool → Parse Statement
  parse_field_declaration is_global = do
    assert_kind token_var (codes "Expect var keyword.")
    name ← consume_kind token_identifier (codes "Expect identifier as variable name.")
    when (is_current_kind token_colon) (parse_typed_field name is_global) (do
      assert_kind token_equal (codes "Expect `=` or `:` after field declaraion name.")
      init_value ← call.parse_expression
      assert_kind token_semicolon (codes "Expect semicolon `;` after field declaration")
      pure (field_declaration name AmunType.none (MaybeExpression.shared init_value) is_global))

  unfoldable pub parse_names : Parse NamesAndTypes
  parse_names =
      repeat call.rounds (is_not (is_current_kind token_close_paren))
        (λ p. do
          name ← consume_kind token_identifier (codes "Expect identifier as variable name.")
          type ←
              when (is_current_kind token_colon) (advanced_token >> call.parse_type)
                (pure AmunType.none)
          when (is_current_kind token_comma) (advanced_token >> again (add_name p name type))
              (leave (add_name p name type)))
        (record { names = []; types = Types.nil })

  unfoldable pub parse_destructuring_field_declaration : Bool → Parse Statement
  parse_destructuring_field_declaration is_global = do
    assert_kind token_var (codes "Expect var keyword.")
    assert_kind token_open_paren (codes "Expect ( after var keyword.")
    p ← parse_names
    assert_kind token_close_paren (codes "Expect ) after var keyword.")
    equal_token ← consume_kind token_equal (codes "Expect = after var keyword.")
    value ← call.parse_expression
    assert_kind token_semicolon (codes "Expect semicolon `;` after field declaration")
    pure (destructuring_declaraion p.names p.types value equal_token is_global)

  -- `define` gives its result to nobody: a constant that the scope has keeps its value.
  unfoldable pub parse_compiletime_constants_declaraion : Parse Statement
  parse_compiletime_constants_declaraion = do
    const_token ← peek_and_advance_token
    name ← consume_kind token_identifier (codes "Expect const declaraion name")
    assert_kind token_equal (codes "Expect = after const variable name")
    expression ← call.parse_expression
    check_compiletime_constants_expression expression name.position
    assert_kind token_semicolon (codes "Expect ; after const declaraion")
    define_constant name.literal expression
    pure (const_declaration name expression)

  -- `= type;` behind the name of the alias.
  unfoldable pub parse_actual_type : Token → Action
  parse_actual_type alias_token = do
    assert_kind token_equal (codes "Expect = after alias name")
    actual_type ← call.parse_type
    refuse_if (is_enum_type actual_type) alias_token.position
        (codes "You can't use type alias for enum name")
    refuse_if (is_enum_element_type actual_type) alias_token.position
        (codes "You can't use type alias for enum element")
    assert_kind token_semicolon (codes "Expect ; after actual type")
    modify_context (λ c. record c {
      type_alias_table =
          AliasTable.define_alias alias_token.literal (MaybeType.shared actual_type)
            c.type_alias_table;
    })

  unfoldable pub parse_type_alias_declaration : Action
  parse_type_alias_declaration = do
    type_token ← consume_kind token_type (codes "Expect type keyword")
    alias_token ← consume_kind token_identifier (codes "Expect identifier for type alias")
    table ← gets (λ s. s.context.type_alias_table)
    refuse_if (AliasTable.contains alias_token.literal table) alias_token.position
        (codes "There already a type with name " ++ alias_token.literal)
    parse_actual_type alias_token
