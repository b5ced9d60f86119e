-- ===== src/Parser/Total/Declarations.antt =====
-- Parsing a declaration ends (src/amun_parser.cpp, src/amun_parser_directives.cpp).
use amun.Prelude.{ℕ, suc, Bool, true, false}
use amun.Prelude.Text.{Bytes}
use amun.Token.{Token, TokenSpan}
use amun.Types.{AmunType, StructType}
use amun.Parser.{FunctionKind}
use amun.Parser.Calls.{Calls}
use amun.Parser.Declarations.{
  Fields, check_struct_name, register_struct, resolve_fields, parse_field, parse_fields,
  parse_struct_body, parse_extern_struct, parse_structure_declaration, parse_kind_directive,
  parse_extern, parse_declaraion_named, parse_declaraions_directive, parse_declaration_statement,
}
use amun.Parser.Enums.{
  EnumParts, implicit_value, explicit_value, parse_explicit_value, parse_enum_value,
  parse_enum_values, parse_enum_declaration,
}
use amun.Parser.Ends.{Ends, Still}
use amun.Parser.Rules.{lower-Ends}
use amun.Parser.Leaves.{ends_rules, still_rules}
use amun.Parser.Functions.{parse_intrinsic_prototype, parse_function_prototype}
use amun.Parser.Bodies.{parse_function_declaration, parse_operator_function_declaraion}
use amun.Parser.Total.Checks.{refuse_if-Still, check_unnecessary_semicolon_warning-Ends}
use amun.Parser.Total.Types.{CallsEnd}
use amun.Parser.Total.Statements.{
  parse_field_declaration-Ends, parse_destructuring_field_declaration-Ends,
  parse_compiletime_constants_declaraion-Ends,
}
use amun.Parser.Total.Functions.{
  parse_generic_parameters-Ends, parse_intrinsic_prototype-Ends, parse_function_prototype-Ends,
  parse_function_declaration-Ends, parse_operator_function_declaraion-Ends,
}

check_struct_name-Still : (t : Token) → Still (check_struct_name t)
unfolding check_struct_name
check_struct_name-Still t = search (still_rules, refuse_if-Still) depth 12

register_struct-Still : (name : Bytes) (type : StructType) → Still (register_struct name type)
unfolding register_struct
register_struct-Still name type = search still_rules depth 12

resolve_fields-Still : (structure : AmunType) (f : Fields) → Still (resolve_fields structure f)
unfolding resolve_fields
resolve_fields-Still structure f = search still_rules depth 12

implicit_value-Still : (t : Token) (p : EnumParts) → Still (implicit_value t p)
unfolding implicit_value
implicit_value-Still t p = search (still_rules, refuse_if-Still) depth 12

explicit_value-Still : (t u : Token) (p : EnumParts) → Still (explicit_value t u p)
unfolding explicit_value
explicit_value-Still t u p = search (still_rules, refuse_if-Still) depth 12

module _ {n : ℕ} (call : Calls) (ends : CallsEnd n call) where
  parse_field-Ends : (b : Bytes) (f : Fields) → Ends true true n (parse_field call b f)
  unfolding parse_field
  parse_field-Ends b f = search (ends_rules, refuse_if-Still, ends.type) depth 16 fits 3000

  parse_fields-Ends : (b : Bytes) → Ends false false n (parse_fields call b)
  unfolding parse_fields
  parse_fields-Ends b =
      search (ends_rules, parse_field-Ends, check_unnecessary_semicolon_warning-Ends, ends.rounds)
        depth 16 fits 3000

  parse_struct_body-Ends : (b : Bytes) (c : Bool) → Ends false false n (parse_struct_body call b c)
  unfolding parse_struct_body
  parse_struct_body-Ends b c =
      search
        (
          ends_rules, parse_generic_parameters-Ends, parse_fields-Ends, resolve_fields-Still,
          register_struct-Still,
        )
        depth 16 fits 3000

  parse_extern_struct-Ends : (b : Bytes) → Ends false false n (parse_extern_struct call b)
  unfolding parse_extern_struct
  parse_extern_struct-Ends b = search (ends_rules, register_struct-Still) depth 16 fits 3000

  parse_structure_declaration-Ends :
      (known strict : Bool) (c d : Bool)
      → Ends known strict (suc n) (parse_structure_declaration call c d)
  unfolding parse_structure_declaration
  parse_structure_declaration-Ends known strict c d =
      search (ends_rules, check_struct_name-Still, parse_extern_struct-Ends, parse_struct_body-Ends)
        depth 16 fits 3000

  parse_explicit_value-Ends :
      (t : Token) (p : EnumParts) → Ends true false n (parse_explicit_value call t p)
  unfolding parse_explicit_value
  parse_explicit_value-Ends t p =
      search (ends_rules, ends.expression, explicit_value-Still) depth 16 fits 3000

  parse_enum_value-Ends : (p : EnumParts) → Ends true true n (parse_enum_value call p)
  unfolding parse_enum_value
  parse_enum_value-Ends p =
      search (ends_rules, refuse_if-Still, parse_explicit_value-Ends, implicit_value-Still) depth 16
        fits 3000

  parse_enum_values-Ends : Ends false false n (parse_enum_values call)
  unfolding parse_enum_values
  parse_enum_values-Ends =
      search
        (ends_rules, parse_enum_value-Ends, check_unnecessary_semicolon_warning-Ends, ends.rounds)
        depth 16 fits 3000

  parse_enum_declaration-Ends :
      (known strict : Bool) → Ends known strict (suc n) (parse_enum_declaration call)
  unfolding parse_enum_declaration
  parse_enum_declaration-Ends known strict =
      search (ends_rules, ends.type, parse_enum_values-Ends) depth 16 fits 3000

  parse_function_declaration_lower :
      (known strict : Bool) (kind : FunctionKind)
      → Ends known strict n (parse_function_declaration call kind)
  parse_function_declaration_lower known strict kind =
      lower-Ends (parse_function_declaration call kind)
        (parse_function_declaration-Ends call ends known strict kind)

  parse_operator_function_declaraion_lower :
      (strict : Bool) (kind : FunctionKind)
      → Ends true strict n (parse_operator_function_declaraion call kind)
  parse_operator_function_declaraion_lower strict kind =
      lower-Ends (parse_operator_function_declaraion call kind)
        (parse_operator_function_declaraion-Ends call ends strict kind)

  parse_function_prototype_lower :
      (known strict : Bool) (kind : FunctionKind) (e : Bool)
      → Ends known strict n (parse_function_prototype call kind e)
  parse_function_prototype_lower known strict kind e =
      lower-Ends (parse_function_prototype call kind e)
        (parse_function_prototype-Ends call ends known strict kind e)

  parse_intrinsic_prototype_lower :
      (known strict : Bool) → Ends known strict n (parse_intrinsic_prototype call)
  parse_intrinsic_prototype_lower known strict =
      lower-Ends (parse_intrinsic_prototype call)
        (parse_intrinsic_prototype-Ends call ends known strict)

  parse_structure_declaration_lower :
      (known strict : Bool) (c d : Bool)
      → Ends known strict n (parse_structure_declaration call c d)
  parse_structure_declaration_lower known strict c d =
      lower-Ends (parse_structure_declaration call c d)
        (parse_structure_declaration-Ends known strict c d)

  parse_kind_directive-Ends :
      (kind : FunctionKind) (b : Bytes) → Ends true false n (parse_kind_directive call kind b)
  unfolding parse_kind_directive
  parse_kind_directive-Ends kind b =
      search
        (ends_rules, parse_function_declaration_lower, parse_operator_function_declaraion_lower)
        depth 16 fits 3000

  parse_extern-Ends : Ends true false n (parse_extern call)
  unfolding parse_extern
  parse_extern-Ends =
      search (ends_rules, parse_structure_declaration_lower, parse_function_prototype_lower) depth
        16 fits 3000

  parse_declaraion_named-Ends :
      (s : TokenSpan) (b : Bytes) → Ends true false n (parse_declaraion_named call s b)
  unfolding parse_declaraion_named
  parse_declaraion_named-Ends s b =
      search
        (
          ends_rules, parse_intrinsic_prototype_lower, parse_extern-Ends, parse_kind_directive-Ends,
          parse_structure_declaration_lower,
        )
        depth 16 fits 3000

  parse_declaraions_directive-Ends :
      (known strict : Bool) → Ends known strict (suc n) (parse_declaraions_directive call)
  unfolding parse_declaraions_directive
  parse_declaraions_directive-Ends known strict =
      search (ends_rules, parse_declaraion_named-Ends) depth 16 fits 3000

  pub parse_declaration_statement-Ends :
      (known strict : Bool) → Ends known strict (suc n) (parse_declaration_statement call)
  unfolding parse_declaration_statement
  parse_declaration_statement-Ends known strict =
      search
        (
          ends_rules, parse_function_declaration-Ends, parse_operator_function_declaraion-Ends,
          parse_destructuring_field_declaration-Ends, parse_field_declaration-Ends,
          parse_compiletime_constants_declaraion-Ends, parse_structure_declaration-Ends,
          parse_enum_declaration-Ends, parse_declaraions_directive-Ends,
        )
        depth 16 fits 3000
