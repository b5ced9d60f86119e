-- ===== src/Parser/Functions.antt =====
-- src/amun_parser.cpp: the prototypes of functions and of intrinsic functions.
use amun.Prelude.{Bool, true, false, not, ◌&&◌, ◌||◌, List, [], ◌∷◌, ◌++◌, if◌then◌else◌, length}
use amun.Prelude.Text.{Bytes, codes, equal}
use amun.Token.{Token}
use amun.Token.{
  token_comma, token_open_paren, token_close_paren, token_open_brace, token_identifier,
  token_semicolon, token_fun, token_smaller, token_greater, token_varargs, token_string,
}
use amun.ScopedMap.{put}
use amun.Types.{AmunType, MaybeType, TypeKind, type_kind, type_kind_eq}
use amun.Types.Queries.{is_void_type, is_integer32_type, is_integer64_type}
use amun.Types.Literal.{get_type_literal}
use amun.Ast.{Statement, Parameter, FunctionPrototype, function_prototype}
use amun.Ast.{intrinsic_prototype}
use amun.Parser.{
  Parse, Action, FunctionKind, function_kind_eq, normal_function, pure, done, ◌>>=◌, ◌>>◌,
  report_error, modify_context,
}
use amun.Parser.Reading.{
  Test, peek_previous, consume_kind, assert_kind, advanced_token, when, repeat, again, leave,
  is_current_kind, is_source_available, is_not, ◌and_then◌, ◌or_else◌,
}
use amun.Parser.Checks.{
  refuse_if, check_generic_parameter_name, check_function_kind_paramters_count,
  is_valid_intrinsic_name,
}
use amun.Parser.Calls.{Calls}
use amun.Parser.Primary.{parse_parameter, concat_parameter}

-- `parameters`, `has_varargs` and `varargs_type` of a prototype.
pub record Signature : Type 0 where
  pub parameters : List Parameter
  pub has_varargs : Bool
  pub varargs_type : MaybeType

abbrev pub no_parameters : Signature
no_parameters = record { parameters = []; has_varargs = false; varargs_type = MaybeType.null }

abbrev add_parameter : Signature → Parameter → Signature
add_parameter p parameter = record p { parameters = concat_parameter p.parameters parameter }

unfoldable pub names : Bytes → Test
names text s token = equal token.literal text

unfoldable pub register_function : Bytes → FunctionKind → Action
register_function name kind =
    modify_context (λ c. record c { functions = put name kind c.functions })

-- The special validation of the function `main`.
unfoldable pub check_main : Token → FunctionKind → Bool → AmunType → Action
check_main name kind is_external return_type =
    if equal name.literal (codes "main")
    then (do
      refuse_if (not (function_kind_eq kind normal_function)) name.position
          (codes "main can't be prefix, infix or postfix function")
      refuse_if is_external name.position (codes "main can't be external function")
      refuse_if
          (not (
            is_void_type return_type
            || is_integer32_type return_type
            || is_integer64_type return_type))
          name.position (codes "main has invalid return type expect void, int32 or int64"))
    else done

abbrev pub return_type_of : FunctionPrototype → AmunType
return_type_of (function_prototype _ _ return_type _ _ _ _ _) = return_type

module _ (call : Calls) where
  -- `while (is_source_available() && !is_current_kind(TOKEN_GREATER))` over the generic parameters,
  -- where `<` stands; none otherwise.
  unfoldable pub parse_generic_parameters : Parse (List Bytes)
  parse_generic_parameters =
      when (is_current_kind token_smaller)
        (do
          advanced_token
          generics_parameters ←
              repeat call.rounds
                (is_source_available and_then is_not (is_current_kind token_greater))
                (λ parameters. do
                  parameter ← consume_kind token_identifier (codes "Expect parameter name")
                  check_generic_parameter_name parameter
                  let more = parameters ++ parameter.literal ∷ []
                  when (is_current_kind token_comma) (advanced_token >> again more) (leave more))
                []
          assert_kind token_greater (codes "Expect > after struct type parameters")
          pure generics_parameters)
        (pure [])

  -- `...` and its type; `Any` stands for no type.
  unfoldable pub parse_varargs : Signature → Parse (Bool × Signature)
  parse_varargs p = do
    advanced_token
    when (is_current_kind token_identifier and_then names (codes "Any"))
        (advanced_token >> again (record p { has_varargs = true }))
        (do
          type ← call.parse_type
          again (record p { has_varargs = true; varargs_type = MaybeType.shared type }))

  -- One parameter. Where no comma follows, a function's list ends and an intrinsic's goes on.
  unfoldable pub parse_signature_parameter : Bool → Signature → Parse (Bool × Signature)
  parse_signature_parameter ends p = do
    previous ← peek_previous
    refuse_if p.has_varargs previous.position
        (codes "Varargs must be the last parameter in the function")
    when (is_current_kind token_varargs) (parse_varargs p) (do
      parameter ← parse_parameter call
      when (is_current_kind token_comma) (advanced_token >> again (add_parameter p parameter))
          (pure (not ends, add_parameter p parameter)))

  unfoldable pub parse_signature : Bool → Parse Signature
  parse_signature ends =
      when (is_current_kind token_open_paren)
        (do
          advanced_token
          p ←
              repeat call.rounds
                (is_source_available and_then is_not (is_current_kind token_close_paren))
                (parse_signature_parameter ends) no_parameters
          assert_kind token_close_paren (codes "Expect ) after function parameters.")
          pure p)
        (pure no_parameters)

  -- Without an explicit return type the function returns nothing.
  unfoldable pub parse_return_type : Parse AmunType
  parse_return_type =
      when (is_current_kind token_semicolon or_else is_current_kind token_open_brace)
        (pure AmunType.void) call.parse_type

  -- The name that the back end knows, where one is given in parentheses.
  unfoldable pub parse_intrinsic_name : Parse Bytes
  parse_intrinsic_name =
      when (is_current_kind token_open_paren)
        (do
          advanced_token
          intrinsic_token ← consume_kind token_string (codes "Expect intrinsic native name.")
          refuse_if (not (is_valid_intrinsic_name intrinsic_token.literal)) intrinsic_token.position
              (codes "Intrinsic name can't have space or be empty")
          assert_kind token_close_paren (codes "Expect ) after native intrinsic name.")
          pure intrinsic_token.literal)
        (pure [])

  abbrev native_name : Bytes → Bytes → Bytes
  native_name [] name = name
  native_name (c ∷ cs) name = c ∷ cs

  -- The parameters and the result of an intrinsic function, behind its name.
  unfoldable pub parse_intrinsic_signature : Token → Bytes → Parse Statement
  parse_intrinsic_signature name intrinsic_name = do
    p ← parse_signature false
    register_function name.literal normal_function
    return_type ← parse_return_type
    refuse_if (type_kind_eq (type_kind return_type) TypeKind.static_array) name.position
        (codes "Function cannot return array type " ++ get_type_literal return_type)
    assert_kind token_semicolon (codes "Expect ; after external function declaration")
    pure (
        intrinsic_prototype name (native_name intrinsic_name name.literal) p.parameters return_type
          p.has_varargs p.varargs_type)

  unfoldable pub parse_intrinsic_prototype : Parse Statement
  parse_intrinsic_prototype = do
    intrinsic_keyword ← consume_kind token_identifier (codes "Expect intrinsic keyword")
    intrinsic_name ← parse_intrinsic_name
    assert_kind token_fun (codes "Expect function keyword.")
    name ← consume_kind token_identifier (codes "Expect identifier as function name.")
    when (is_current_kind token_smaller)
        (report_error name.position (codes "intrinsic function can't has generic parameter"))
        (parse_intrinsic_signature name intrinsic_name)

  -- The prototype behind its generic parameters.
  unfoldable pub parse_prototype :
      FunctionKind → Bool → Token → Bool → List Bytes → Parse FunctionPrototype
  parse_prototype kind is_external name is_generic generics_parameters = do
    p ← parse_signature true
    check_function_kind_paramters_count kind (length p.parameters) name.position
    register_function name.literal kind
    return_type ← parse_return_type
    if is_external
        then assert_kind token_semicolon (codes "Expect ; after external function declaration")
        else done
    check_main name kind is_external return_type
    pure (
        function_prototype name p.parameters return_type is_external p.has_varargs p.varargs_type
          is_generic generics_parameters)

  unfoldable pub parse_function_prototype : FunctionKind → Bool → Parse FunctionPrototype
  parse_function_prototype kind is_external = do
    if is_external then assert_kind token_identifier (codes "Expect external keyword") else done
    assert_kind token_fun (codes "Expect function keyword.")
    name ← consume_kind token_identifier (codes "Expect identifier as function name.")
    is_generic ← when (is_current_kind token_smaller) (pure true) (pure false)
    refuse_if (is_external && is_generic) name.position
        (codes "external function can't has generic parameter")
    generics_parameters ← parse_generic_parameters
    parse_prototype kind is_external name is_generic generics_parameters
