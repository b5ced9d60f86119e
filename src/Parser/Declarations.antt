-- ===== src/Parser/Declarations.antt =====
-- src/amun_parser.cpp and src/amun_parser_directives.cpp: the declaration of a struct, the
-- directives for declarations, and `parse_declaration_statement`.
use amun.Prelude.{◌==◌, Bool, true, false, List, [], ◌∷◌, ◌++◌, if◌then◌else◌}
use amun.Prelude.Text.{Bytes, codes, equal}
use amun.Token.{Token, TokenSpan}
use amun.Token.{
  token_open_paren, token_open_brace, token_close_brace, token_identifier, token_semicolon,
  token_smaller, token_fun, token_operator, token_var, token_const, token_struct, token_enum,
  token_at,
}
use amun.ScopedMap.{contains, put}
use amun.Types.{
  AmunType, Types, MaybeType, StructType, struct_type, TypeKind, type_kind, type_kind_eq,
}
use amun.AliasTable
use amun.Ast.{Statement, append_type}
use amun.Ast.{struct_declaration, prototype_declaration}
use amun.Parser.{
  Parse, Action, FunctionKind, normal_function, prefix_function, infix_function, postfix_function,
  pure, ◌>>=◌, ◌>>◌, gets, undefined, report_error, modify_context, set_generic_parameters_names,
  set_struct_name, set_unknown_fields,
}
use amun.Parser.Reading.{
  peek_current, peek_and_advance_token, consume_kind, assert_kind, advanced_token, when, repeat,
  again, is_current_kind, is_next_kind, is_source_available, is_not, ◌and_then◌,
}
use amun.Parser.Checks.{refuse_if, is_contains, check_unnecessary_semicolon_warning, resolve_types}
use amun.Parser.Calls.{Calls}
use amun.Parser.Statements.{
  parse_field_declaration, parse_destructuring_field_declaration,
  parse_compiletime_constants_declaraion,
}
use amun.Parser.Functions.{
  parse_generic_parameters, parse_intrinsic_prototype, parse_function_prototype,
}
use amun.Parser.Bodies.{parse_function_declaration, parse_operator_function_declaraion}
use amun.Parser.Enums.{parse_enum_declaration}

-- `fields_names` and `fields_types` of `parse_structure_declaration`.
pub record Fields : Type 0 where
  pub fields_names : List Bytes
  pub fields_types : Types

abbrev type_of_fields : Bytes → Fields → List Bytes → Bool → Bool → Bool → StructType
type_of_fields name f generics_parameters is_packed is_generic is_extern =
    struct_type name f.fields_names f.fields_types generics_parameters Types.nil is_packed
      is_generic is_extern

-- The name of a struct is new.
unfoldable pub check_struct_name : Token → Action
check_struct_name struct_name = do
  s ← gets (λ s. s)
  refuse_if (contains struct_name.literal s.context.structures) struct_name.position
      (codes "There is already struct with name " ++ struct_name.literal)
  refuse_if (AliasTable.contains struct_name.literal s.context.type_alias_table)
      struct_name.position (codes "There is already a type with name " ++ struct_name.literal)

unfoldable pub register_struct : Bytes → StructType → Parse Statement
register_struct name type = do
  modify_context (λ c. record c {
    structures = put name type c.structures;
    type_alias_table =
        AliasTable.define_alias name (MaybeType.shared (AmunType.struct type)) c.type_alias_table;
  })
  set_struct_name []
  set_generic_parameters_names []
  pure (struct_declaration type)

-- The fields with their references to the struct resolved, where the counter of unknown fields is above
-- zero. Each replacement lowers the counter; the code asserts that it is zero afterwards, which is that
-- the counter was the number of replacements. The struct behind the new pointers is the shared object whose fields are
-- replaced, so the source's type is a cycle; here it has the fields as they were parsed.
unfoldable pub resolve_fields : AmunType → Fields → Parse Fields
resolve_fields structure f = do
  unknown ← gets (λ s. s.current_struct_unknown_fields)
  let r = resolve_types (AmunType.pointer structure) f.fields_types
  if unknown == 0
      then pure f
      else if unknown == r.1
      then set_unknown_fields 0 >> pure (record f { fields_types = r.0 })
      else undefined

module _ (call : Calls) where
  unfoldable pub parse_field : Bytes → Fields → Parse (Bool × Fields)
  parse_field struct_name f = do
    field_name ← consume_kind token_identifier (codes "Expect Symbol as struct name")
    refuse_if (is_contains field_name.literal f.fields_names) field_name.position
        (codes "There is already struct member with name " ++ field_name.literal)
    field_type ← call.parse_type
    refuse_if (type_kind_eq (type_kind field_type) TypeKind.none) field_name.position (
        codes
          "Field type isn't fully defined yet, you can't use it until it defined but you can use *"
        ++ struct_name)
    assert_kind token_semicolon (codes "Expect ; at the end of struct field declaration")
    again (record {
      fields_names = f.fields_names ++ field_name.literal ∷ [];
      fields_types = append_type f.fields_types field_type;
    })

  unfoldable pub parse_fields : Bytes → Parse Fields
  parse_fields struct_name = do
    assert_kind token_open_brace (codes "Expect { after struct name")
    f ←
        repeat call.rounds (is_source_available and_then is_not (is_current_kind token_close_brace))
          (parse_field struct_name) (record { fields_names = []; fields_types = Types.nil })
    assert_kind token_close_brace (codes "Expect } in the end of struct declaration")
    check_unnecessary_semicolon_warning
    pure f

  unfoldable pub parse_struct_body : Bytes → Bool → Parse Statement
  parse_struct_body name is_packed = do
    is_generic_struct ← when (is_current_kind token_smaller) (pure true) (pure false)
    generics_parameters ← parse_generic_parameters call
    f ← parse_fields name
    resolved ←
        resolve_fields
          (AmunType.struct
            (type_of_fields name f generics_parameters is_packed is_generic_struct false))
          f
    register_struct name
        (type_of_fields name resolved generics_parameters is_packed is_generic_struct false)

  unfoldable pub parse_extern_struct : Bytes → Parse Statement
  parse_extern_struct name = do
    assert_kind token_semicolon (codes "Expect `;` at the end of external struct")
    register_struct name (
        type_of_fields name (record { fields_names = []; fields_types = Types.nil }) [] false false
          true)

  unfoldable pub parse_structure_declaration : Bool → Bool → Parse Statement
  parse_structure_declaration is_packed is_extern = do
    struct_token ← consume_kind token_struct (codes "Expect struct keyword")
    struct_name ← consume_kind token_identifier (codes "Expect Symbol as struct name")
    check_struct_name struct_name
    set_struct_name struct_name.literal
    if is_extern
        then parse_extern_struct struct_name.literal
        else parse_struct_body struct_name.literal is_packed

  -- `@prefix`, `@infix` and `@postfix`.
  unfoldable pub parse_kind_directive : FunctionKind → Bytes → Parse Statement
  parse_kind_directive kind message = do
    token ← peek_and_advance_token
    when (is_current_kind token_fun) (parse_function_declaration call kind) (
        when (is_current_kind token_operator) (parse_operator_function_declaraion call kind)
          (report_error token.position message))

  unfoldable pub parse_extern : Parse Statement
  parse_extern =
      when (is_next_kind token_struct) (advanced_token >> parse_structure_declaration false true)
        (do
          prototype ← parse_function_prototype call normal_function true
          pure (prototype_declaration prototype))

  unfoldable pub parse_declaraion_named : TokenSpan → Bytes → Parse Statement
  parse_declaraion_named posiiton name =
      if equal name (codes "intrinsic")
      then parse_intrinsic_prototype call
      else if equal name (codes "extern")
      then parse_extern
      else if equal name (codes "prefix")
      then parse_kind_directive prefix_function
          (codes "prefix keyword used only for function and operators")
      else if equal name (codes "infix")
      then parse_kind_directive infix_function
          (codes "infix keyword used only for function and operators")
      else if equal name (codes "postfix")
      then parse_kind_directive postfix_function
          (codes "postfix keyword used only for function and operators")
      else if equal name (codes "packed")
      then advanced_token >> parse_structure_declaration true false
      else report_error posiiton (codes "No declaraions directive with name " ++ name)

  unfoldable pub parse_declaraions_directive : Parse Statement
  parse_declaraions_directive = do
    hash_token ← consume_kind token_at (codes "Expect `@` before directive name")
    when (is_current_kind token_identifier)
        (do directive ← peek_current; parse_declaraion_named hash_token.position directive.literal)
        (report_error hash_token.position (codes "Expect identifier as directive name"))

  unfoldable pub parse_declaration_statement : Parse Statement
  parse_declaration_statement =
      when (is_current_kind token_fun) (parse_function_declaration call normal_function) (
        when (is_current_kind token_operator)
          (parse_operator_function_declaraion call normal_function)
          (when (is_current_kind token_var)
            (when (is_next_kind token_open_paren) (parse_destructuring_field_declaration call true)
              (parse_field_declaration call true))
            (when (is_current_kind token_const) (parse_compiletime_constants_declaraion call) (
              when (is_current_kind token_struct) (parse_structure_declaration false false) (
                when (is_current_kind token_enum) (parse_enum_declaration call) (
                  when (is_current_kind token_at) parse_declaraions_directive (do
                    current ← peek_current
                    report_error current.position
                        (codes "Invalid top level declaration statement"))))))))
