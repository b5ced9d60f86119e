-- ===== src/Parser/Total/Types.antt =====
-- Parsing a type ends (src/amun_parser_types.cpp).
use amun.Prelude.{ℕ, suc, ◌≤◌, Bool, false}
use amun.Prelude.Text.{Bytes}
use amun.Token.{Token}
use amun.Types.{StructType}
use amun.Parser.Reading.{Test}
use amun.Parser.Calls.{Calls}
use amun.Parser.Types.{
  parse_types_while, parse_generic_arguments_if_exists, parse_list_of_types, parse_pointer_to_type,
  resolve_type_alias, resolve_local_type, resolve_type, parse_identifier_type, parse_primary_type,
  parse_function_ptr_type, parse_tuple_type, parse_array_size, parse_fixed_size_array_type,
  parse_generic_struct_arguments, parse_generic_struct_type, parse_type_with_postfix,
  parse_type_with_prefix, pares_types_directive, parse_type,
}
use amun.Parser.Ends.{Ends, Still}
use amun.Parser.Rules.{lower-Ends}
use amun.Parser.Leaves.{ends_rules, still_rules}
use amun.Parser.Total.Checks.{refuse_if-Still}

resolve_type_alias-Still : (name : Bytes) → Still (resolve_type_alias name)
unfolding resolve_type_alias
resolve_type_alias-Still name = search still_rules depth 12

resolve_local_type-Still : (name : Bytes) → Still (resolve_local_type name)
unfolding resolve_local_type
resolve_local_type-Still name = search (still_rules, resolve_type_alias-Still) depth 12

resolve_type-Still : (name : Bytes) → Still (resolve_type name)
unfolding resolve_type
resolve_type-Still name = search (still_rules, resolve_local_type-Still) depth 12

module _ {n : ℕ} (known strict : Bool) where
  parse_identifier_type-Ends : Ends known strict n parse_identifier_type
  unfolding parse_identifier_type
  parse_identifier_type-Ends = search (ends_rules, resolve_type-Still) depth 12

  parse_primary_type-Ends : Ends known strict n parse_primary_type
  unfolding parse_primary_type
  parse_primary_type-Ends = search (ends_rules, parse_identifier_type-Ends) depth 12

-- The calls end where fewer than `n` tokens are left.
pub record CallsEnd (n : ℕ) (call : Calls) : Type 0 where
  pub rounds : n ≤ call.rounds
  pub type : (known strict : Bool) → Ends known strict n call.parse_type
  pub type_with_prefix : (known strict : Bool) → Ends known strict n call.parse_type_with_prefix
  pub expression : (known strict : Bool) → Ends known strict n call.parse_expression
  pub assignment : (known strict : Bool) → Ends known strict n call.parse_assignment_expression
  pub infix_call : (known strict : Bool) → Ends known strict n call.parse_infix_call_expression
  pub prefix : (known strict : Bool) → Ends known strict n call.parse_prefix_expression
  pub statement : (known strict : Bool) → Ends known strict n call.parse_statement

module _ {n : ℕ} (call : Calls) (ends : CallsEnd n call) where
  parse_types_while-Ends : (test : Test) → Ends false false n (parse_types_while call test)
  unfolding parse_types_while
  parse_types_while-Ends test = search (ends_rules, ends.type, ends.rounds) depth 12

  pub parse_generic_arguments_if_exists-Ends :
      (known : Bool) → Ends known false n (parse_generic_arguments_if_exists call)
  unfolding parse_generic_arguments_if_exists
  parse_generic_arguments_if_exists-Ends known =
      search (ends_rules, parse_types_while-Ends) depth 12

  parse_generic_struct_arguments-Ends :
      (struct : StructType) → Ends false false n (parse_generic_struct_arguments call struct)
  unfolding parse_generic_struct_arguments
  parse_generic_struct_arguments-Ends struct =
      search (ends_rules, refuse_if-Still, parse_generic_arguments_if_exists-Ends) depth 15

module _ {n : ℕ} (call : Calls) (ends : CallsEnd n call) where
  parse_list_of_types-Ends :
      (known strict : Bool) → Ends known strict (suc n) (parse_list_of_types call)
  unfolding parse_list_of_types
  parse_list_of_types-Ends known strict = search (ends_rules, parse_types_while-Ends) depth 12

  parse_list_of_types_lower : (known strict : Bool) → Ends known strict n (parse_list_of_types call)
  parse_list_of_types_lower known strict =
      lower-Ends (parse_list_of_types call) (parse_list_of_types-Ends known strict)

  parse_pointer_to_type-Ends :
      (known strict : Bool) → Ends known strict (suc n) (parse_pointer_to_type call)
  unfolding parse_pointer_to_type
  parse_pointer_to_type-Ends known strict = search (ends_rules, ends.type_with_prefix) depth 12

  parse_function_ptr_type-Ends :
      (known strict : Bool) → Ends known strict (suc n) (parse_function_ptr_type call)
  unfolding parse_function_ptr_type
  parse_function_ptr_type-Ends known strict =
      search (ends_rules, ends.type, parse_list_of_types_lower) depth 12

  parse_tuple_type-Ends : (known strict : Bool) → Ends known strict (suc n) (parse_tuple_type call)
  unfolding parse_tuple_type
  parse_tuple_type-Ends known strict =
      search (ends_rules, parse_list_of_types-Ends, refuse_if-Still) depth 12

  parse_array_size-Ends : (bracket : Token) → Ends false false n (parse_array_size call bracket)
  unfolding parse_array_size
  parse_array_size-Ends bracket = search (ends_rules, ends.expression, refuse_if-Still) depth 12

  parse_fixed_size_array_type-Ends :
      (known strict : Bool) → Ends known strict (suc n) (parse_fixed_size_array_type call)
  unfolding parse_fixed_size_array_type
  parse_fixed_size_array_type-Ends known strict =
      search (ends_rules, ends.type, parse_array_size-Ends, refuse_if-Still) depth 20 fits 3000

  parse_generic_struct_type-Ends :
      (known strict : Bool) → Ends known strict (suc n) (parse_generic_struct_type call)
  unfolding parse_generic_struct_type
  parse_generic_struct_type-Ends known strict =
      search
        (ends_rules, parse_primary_type-Ends, parse_generic_struct_arguments-Ends, refuse_if-Still)
        depth 12

  parse_type_with_postfix-Ends :
      (known strict : Bool) → Ends known strict (suc n) (parse_type_with_postfix call)
  unfolding parse_type_with_postfix
  parse_type_with_postfix-Ends known strict =
      search (ends_rules, parse_generic_struct_type-Ends) depth 12

  pub parse_type_with_prefix-Ends :
      (known strict : Bool) → Ends known strict (suc n) (parse_type_with_prefix call)
  unfolding parse_type_with_prefix
  parse_type_with_prefix-Ends known strict =
      search
        (
          ends_rules, parse_pointer_to_type-Ends, parse_function_ptr_type-Ends,
          parse_tuple_type-Ends, parse_fixed_size_array_type-Ends, parse_type_with_postfix-Ends,
        )
        depth 12

  pares_types_directive-Ends :
      (known strict : Bool) → Ends known strict (suc n) (pares_types_directive call)
  unfolding pares_types_directive
  pares_types_directive-Ends known strict = search (ends_rules, ends.type) depth 12

  pub parse_type-Ends : (known strict : Bool) → Ends known strict (suc n) (parse_type call)
  unfolding parse_type
  parse_type-Ends known strict =
      search (ends_rules, pares_types_directive-Ends, parse_type_with_prefix-Ends) depth 12
