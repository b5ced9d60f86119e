-- ===== src/Parser/Total/Functions.antt =====
-- Parsing the declaration of a function ends (src/amun_parser.cpp).
use amun.Prelude.{ℕ, suc, Bool, true, false, List}
use amun.Prelude.Text.{Bytes}
use amun.Token.{Token}
use amun.Types.{AmunType}
use amun.Ast.{Statement}
use amun.Parser.{FunctionKind, AstNodeScope, Parse}
use amun.Parser.Calls.{Calls}
use amun.Parser.Functions.{
  Signature, register_function, check_main, parse_generic_parameters, parse_varargs,
  parse_signature_parameter, parse_signature, parse_return_type, parse_intrinsic_name,
  parse_intrinsic_signature, parse_intrinsic_prototype, parse_prototype, parse_function_prototype,
}
use amun.Parser.Bodies.{
  enter_function, leave_function, check_operator, parse_operator_function_operator,
  parse_value_body, parse_block_body, parse_function_body, parse_function_declaration,
  parse_operator_parameters, parse_operator_prototype, parse_operator_function_declaraion,
}
use amun.Parser.Ends.{Ends, Still}
use amun.Parser.Rules.{lower-Ends, guarded-Ends}
use amun.Parser.Leaves.{ends_rules, still_rules}
use amun.Parser.Total.Checks.{
  refuse_if-Still, check_generic_parameter_name-Still, check_function_kind_paramters_count-Still,
  check_unnecessary_semicolon_warning-Ends,
}
use amun.Parser.Total.Types.{CallsEnd}
use amun.Parser.Total.Primary.{
  parse_parameter-Ends, parse_parameters_while-Ends, push_loop_level-Still, pop_loop_level-Still,
}
use amun.Parser.Statements.{parse_block}
use amun.Parser.Total.Statements.{parse_block-Ends}

register_function-Still : (name : Bytes) (kind : FunctionKind) → Still (register_function name kind)
unfolding register_function
register_function-Still name kind = search still_rules

check_main-Still :
    (name : Token) (kind : FunctionKind) (e : Bool) (t : AmunType)
    → Still (check_main name kind e t)
unfolding check_main
check_main-Still name kind e t = search (still_rules, refuse_if-Still) depth 12

enter_function-Still : Still enter_function
unfolding enter_function
enter_function-Still = search still_rules depth 12

leave_function-Still : (scope : AstNodeScope) → Still (leave_function scope)
unfolding leave_function
leave_function-Still scope = search still_rules depth 12

check_operator-Still : (kind : FunctionKind) (op : Token) → Still (check_operator kind op)
unfolding check_operator
check_operator-Still kind op = search (still_rules, refuse_if-Still) depth 12

parse_operator_function_operator-Ends :
    (known : Bool) (n : ℕ) (kind : FunctionKind)
    → Ends known false n (parse_operator_function_operator kind)
unfolding parse_operator_function_operator
parse_operator_function_operator-Ends known n kind =
    search (ends_rules, check_operator-Still) depth 16

module _ {n : ℕ} (call : Calls) (ends : CallsEnd n call) where
  pub parse_generic_parameters-Ends :
      (known : Bool) → Ends known false n (parse_generic_parameters call)
  unfolding parse_generic_parameters
  parse_generic_parameters-Ends known =
      search (ends_rules, check_generic_parameter_name-Still, ends.rounds) depth 16 fits 3000

  parse_varargs-Ends : (p : Signature) → Ends true true n (parse_varargs call p)
  unfolding parse_varargs
  parse_varargs-Ends p = search (ends_rules, ends.type) depth 16 fits 3000

  parse_signature_parameter-Ends :
      (e : Bool) (p : Signature) → Ends true true n (parse_signature_parameter call e p)
  unfolding parse_signature_parameter
  parse_signature_parameter-Ends e p =
      search (ends_rules, refuse_if-Still, parse_varargs-Ends, parse_parameter-Ends) depth 16 fits
        3000

  parse_signature-Ends : (known : Bool) (e : Bool) → Ends known false n (parse_signature call e)
  unfolding parse_signature
  parse_signature-Ends known e =
      search (ends_rules, parse_signature_parameter-Ends, ends.rounds) depth 16 fits 3000

  parse_return_type-Ends : (known : Bool) → Ends known false n (parse_return_type call)
  unfolding parse_return_type
  parse_return_type-Ends known = search (ends_rules, ends.type) depth 16 fits 3000

  parse_intrinsic_name-Ends : (known : Bool) → Ends known false n (parse_intrinsic_name call)
  unfolding parse_intrinsic_name
  parse_intrinsic_name-Ends known = search (ends_rules, refuse_if-Still) depth 16 fits 3000

  parse_intrinsic_signature-Ends :
      (t : Token) (b : Bytes) → Ends false false n (parse_intrinsic_signature call t b)
  unfolding parse_intrinsic_signature
  parse_intrinsic_signature-Ends t b =
      search
        (
          ends_rules, parse_signature-Ends, register_function-Still, parse_return_type-Ends,
          refuse_if-Still,
        )
        depth 16 fits 3000

  pub parse_intrinsic_prototype-Ends :
      (known strict : Bool) → Ends known strict (suc n) (parse_intrinsic_prototype call)
  unfolding parse_intrinsic_prototype
  parse_intrinsic_prototype-Ends known strict =
      search (ends_rules, parse_intrinsic_name-Ends, parse_intrinsic_signature-Ends) depth 16 fits
        3000

  parse_prototype-Ends :
      (kind : FunctionKind) (e : Bool) (t : Token) (g : Bool) (gs : List Bytes)
      → Ends false false n (parse_prototype call kind e t g gs)
  unfolding parse_prototype
  parse_prototype-Ends kind e t g gs =
      search
        (
          ends_rules, parse_signature-Ends, check_function_kind_paramters_count-Still,
          register_function-Still, parse_return_type-Ends, check_main-Still,
        )
        depth 16 fits 3000

  pub parse_function_prototype-Ends :
      (known strict : Bool) (kind : FunctionKind) (e : Bool)
      → Ends known strict (suc n) (parse_function_prototype call kind e)
  unfolding parse_function_prototype
  parse_function_prototype-Ends known strict kind e =
      search (ends_rules, refuse_if-Still, parse_generic_parameters-Ends, parse_prototype-Ends)
        depth 16 fits 3000

  parse_value_body-Ends : (strict : Bool) → Ends true strict n (parse_value_body call)
  unfolding parse_value_body
  parse_value_body-Ends strict = search (ends_rules, ends.expression) depth 12

  parse_block_lower : (known strict : Bool) → Ends known strict n (parse_block call)
  parse_block_lower known strict =
      lower-Ends (parse_block call) (parse_block-Ends call ends known strict)

  parse_block_body-Ends :
      (known : Bool) (t : AmunType) → Ends known false n (parse_block_body call t)
  unfolding parse_block_body
  parse_block_body-Ends known t =
      search
        (
          ends_rules, push_loop_level-Still, parse_block_lower,
          check_unnecessary_semicolon_warning-Ends, pop_loop_level-Still,
        )
        depth 16 fits 3000

  parse_function_body-Ends :
      (t : AmunType) (missing : Parse Statement)
      → Ends false false n missing
      → Ends false false n (parse_function_body call t missing)
  unfolding parse_function_body
  parse_function_body-Ends t missing h =
      guarded-Ends _ _ _ (search ends_rules) (search parse_value_body-Ends)
        (guarded-Ends _ _ _ (search ends_rules) (search parse_block_body-Ends) h)

  pub parse_function_declaration-Ends :
      (known strict : Bool) (kind : FunctionKind)
      → Ends known strict (suc n) (parse_function_declaration call kind)
  unfolding parse_function_declaration
  parse_function_declaration-Ends known strict kind =
      search
        (
          ends_rules, enter_function-Still, parse_function_prototype-Ends, parse_function_body-Ends,
          leave_function-Still,
        )
        depth 16 fits 3000

  parse_operator_parameters-Ends :
      (known : Bool) → Ends known false n (parse_operator_parameters call)
  unfolding parse_operator_parameters
  parse_operator_parameters-Ends known =
      search (ends_rules, parse_parameters_while-Ends) depth 16 fits 3000

  parse_operator_prototype-Ends :
      (kind : FunctionKind) (t u : Token)
      → Ends false false n (parse_operator_prototype call kind t u)
  unfolding parse_operator_prototype
  parse_operator_prototype-Ends kind t u =
      search
        (
          ends_rules, parse_operator_parameters-Ends, check_function_kind_paramters_count-Still,
          parse_return_type-Ends,
        )
        depth 16 fits 3000

  pub parse_operator_function_declaraion-Ends :
      (strict : Bool) (kind : FunctionKind)
      → Ends true strict (suc n) (parse_operator_function_declaraion call kind)
  unfolding parse_operator_function_declaraion
  parse_operator_function_declaraion-Ends strict kind =
      search
        (
          ends_rules, enter_function-Still, parse_operator_function_operator-Ends,
          parse_operator_prototype-Ends, parse_function_body-Ends, leave_function-Still,
        )
        depth 16 fits 3000
