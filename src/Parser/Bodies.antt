-- ===== src/Parser/Bodies.antt =====
-- src/amun_parser.cpp: functions and operator functions with their bodies.
use amun.Prelude.{true, false, not, ◌&&◌, List, [], ◌∷◌, ◌++◌, if◌then◌else◌, length}
use amun.Prelude.Text.{Bytes, codes}
use amun.Token.{Token}
use amun.Token.{
  token_open_paren, token_close_paren, token_open_brace, token_identifier, token_semicolon,
  token_equal, token_right_shift,
}
use amun.Token.Operators.{
  is_supported_overloading_operator, overloading_prefix_operators, overloading_infix_operators,
  overloading_postfix_operators,
}
use amun.ScopedMap
use amun.ScopedMap.{put}
use amun.Types.{AmunType, Types, MaybeType}
use amun.Mangle.{mangle_operator_function}
use amun.Ast.{MaybeExpression, Statement, Parameter, FunctionPrototype, function_prototype}
use amun.Ast.{block_statement, return_statement, function_declaration, operator_function_declaraion}
use amun.Parser.{
  Parse, Action, FunctionKind, function_kind_eq, normal_function, prefix_function, infix_function,
  postfix_function, function_scope, AstNodeScope, pure, ◌>>=◌, ◌>>◌, gets, value, report_error,
  modify_context, set_ast_scope, set_generic_parameters_names,
}
use amun.Parser.Reading.{
  peek_current, peek_previous, peek_and_advance_token, assert_kind, advanced_token, when,
  is_current_kind, is_source_available, is_not, ◌and_then◌, is_right_shift_operator,
}
use amun.Parser.Checks.{
  refuse_if, check_function_kind_paramters_count, check_unnecessary_semicolon_warning,
}
use amun.Parser.Calls.{Calls}
use amun.Parser.Primary.{parse_parameters_while, push_loop_level, pop_loop_level, return_if_void}
use amun.Parser.Statements.{parse_block}
use amun.Parser.Functions.{return_type_of, parse_return_type, parse_function_prototype}

-- The scope of a function: entered, and left with the scope of its parent.
unfoldable pub enter_function : Action
enter_function = do
  set_ast_scope function_scope
  modify_context
      (λ c. record c { constants_table_map = ScopedMap.push_new_scope c.constants_table_map })

unfoldable pub leave_function : AstNodeScope → Action
leave_function parent_node_scope = do
  set_ast_scope parent_node_scope
  constants ← gets (λ s. s.context.constants_table_map)
  popped ← value (ScopedMap.pop_current_scope constants)
  modify_context (λ c. record c { constants_table_map = popped })

-- The operator of an operator function, by the kind of the function.
unfoldable pub check_operator : FunctionKind → Token → Action
check_operator kind op = do
  refuse_if (not (is_supported_overloading_operator op.kind)) op.position
      (codes "Unsupported Operator for operator overloading function")
  refuse_if (function_kind_eq kind prefix_function && not (overloading_prefix_operators op.kind))
      op.position (codes "this operator can't be used as prefix operator")
  refuse_if (function_kind_eq kind infix_function && not (overloading_infix_operators op.kind))
      op.position (codes "this operator can't be used as infix operator")
  refuse_if (function_kind_eq kind postfix_function && not (overloading_postfix_operators op.kind))
      op.position (codes "this operator can't be used as postfix operator")

unfoldable pub parse_operator_function_operator : FunctionKind → Parse Token
parse_operator_function_operator kind = do
  op ← peek_and_advance_token
  previous ← peek_previous
  current ← peek_current
  operator ←
      if is_right_shift_operator previous current
      then advanced_token >> pure (record op { kind = token_right_shift })
      else pure op
  check_operator kind operator
  pure operator

abbrev types_of : List Parameter → Types
types_of [] = Types.nil
types_of (p ∷ ps) = Types.cons p.type (types_of ps)

abbrev operator_prefix : FunctionKind → Bytes
operator_prefix prefix_function = codes "_prefix"
operator_prefix postfix_function = codes "_postfix"
operator_prefix _ = []

module _ (call : Calls) where
  -- `= value;` for a body.
  unfoldable pub parse_value_body : Parse Statement
  parse_value_body = do
    equal_token ← peek_and_advance_token
    value ← call.parse_expression
    assert_kind token_semicolon (codes "Expect ; after function value")
    pure (return_statement equal_token (MaybeExpression.shared value) true)

  -- A block for a body.
  unfoldable pub parse_block_body : AmunType → Parse Statement
  parse_block_body return_type = do
    push_loop_level
    statements ← parse_block call
    check_unnecessary_semicolon_warning
    pop_loop_level
    close_brace ← peek_previous
    pure (block_statement (return_if_void return_type close_brace statements))

  unfoldable pub parse_function_body : AmunType → Parse Statement → Parse Statement
  parse_function_body return_type missing =
      when (is_current_kind token_equal) parse_value_body
        (when (is_current_kind token_open_brace) (parse_block_body return_type) missing)

  unfoldable pub parse_function_declaration : FunctionKind → Parse Statement
  parse_function_declaration kind = do
    parent_node_scope ← gets (λ s. s.current_ast_scope)
    enter_function
    prototype ← parse_function_prototype call kind false
    body ← parse_function_body (return_type_of prototype) (do
      previous ← peek_previous
      report_error previous.position
          (codes "function declaration without a body: `{ <body> }` or `= <value>;`"))
    leave_function parent_node_scope
    set_generic_parameters_names []
    pure (function_declaration prototype body)

  unfoldable pub parse_operator_parameters : Parse (List Parameter)
  parse_operator_parameters =
      when (is_current_kind token_open_paren)
        (do
          advanced_token
          parameters ←
              parse_parameters_while call
                (is_source_available and_then is_not (is_current_kind token_close_paren))
          assert_kind token_close_paren (codes "Expect ) after function parameters.")
          pure parameters)
        (pure [])

  -- The count is checked as that of a normal function, whatever the kind.
  unfoldable pub parse_operator_prototype : FunctionKind → Token → Token → Parse FunctionPrototype
  parse_operator_prototype kind operator_keyword operator_token = do
    parameters ← parse_operator_parameters
    check_function_kind_paramters_count normal_function (length parameters)
        operator_keyword.position
    return_type ← parse_return_type call
    pure (
        function_prototype
          (record {
            kind = token_identifier;
            position = operator_token.position;
            literal =
                operator_prefix kind
                ++ mangle_operator_function operator_token.kind (types_of parameters);
          })
          parameters return_type false false MaybeType.null false [])

  unfoldable pub parse_operator_function_declaraion : FunctionKind → Parse Statement
  parse_operator_function_declaraion kind = do
    parent_node_scope ← gets (λ s. s.current_ast_scope)
    enter_function
    operator_keyword ← peek_and_advance_token
    operator_token ← parse_operator_function_operator kind
    prototype ← parse_operator_prototype kind operator_keyword operator_token
    body ← parse_function_body (return_type_of prototype) (
        report_error operator_keyword.position
          (codes "operator function declaration without a body: `{ <body> }` or `= <value>;`"))
    leave_function parent_node_scope
    pure (operator_function_declaraion operator_token prototype body)
