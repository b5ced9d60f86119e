-- ===== src/Parser/Total/Levels.antt =====
-- Parsing an expression ends (src/amun_parser.cpp).
use amun.Prelude.{arith, Option, some, none, ◌≡◌, refl, ℕ, suc, Bool, true, false}
use amun.Token.{Token, token_end_of_file, token_greater, kind_eq}
use amun.Token.Operators.{assignments_operators}
use amun.Ast.{Expression}
use amun.Parser.{Parse, Enumeration}
use amun.Parser.Reading.{Test, is_current_kind, is_right_shift_operator}
use amun.Parser.Calls.{Calls}
use amun.Parser.Levels.{
  at_right_shift, followed_by_greater, Combine, enum_access, enum_access_of,
  parse_enum_access_expression, parse_operators, parse_factor_expression, parse_term_expression,
  parse_bitwise_shift_expression, parse_comparison_expression, parse_equality_expression,
  parse_bitwise_or_expression, parse_bitwise_xor_expression, parse_bitwise_and_expression,
  parse_logical_and_expression, parse_logical_or_expression, parse_assignment_expression,
  parse_expression,
}
use amun.Parser.Ends.{Ends}
use amun.Parser.Rules.{Guards, is_current_kind-Guards, lower-Ends}
use amun.Parser.Leaves.{ends_rules}
use amun.Parser.Total.Types.{CallsEnd}
use amun.Parser.Total.Postfix.{parse_infix_call_expression-Ends}

assignments_end : assignments_operators token_end_of_file ≡ false
unfolding assignments_operators
assignments_end = refl

followed_by_greater-kind :
    (t : Token) (o : Option Token)
    → followed_by_greater t o ≡ true
    → kind_eq t.kind token_greater ≡ true
unfolding is_right_shift_operator
followed_by_greater-kind t (some u) h = ground arith
followed_by_greater-kind t none h = ground arith

at_right_shift-Guards : Guards at_right_shift
unfolding at_right_shift is_current_kind
at_right_shift-Guards = record {
  inside = λ s t e.
      (is_current_kind-Guards token_greater refl).inside s t
        (followed_by_greater-kind t s.next_token e);
}

enum_access-Ends :
    (n : ℕ) (name : Token) (enum : Enumeration) → Ends false false n (enum_access name enum)
unfolding enum_access
enum_access-Ends n name enum = search ends_rules depth 12

enum_access_of-Ends : (n : ℕ) (name : Token) → Ends false false n (enum_access_of name)
unfolding enum_access_of
enum_access_of-Ends n name = search (ends_rules, enum_access-Ends) depth 12

module _ {n : ℕ} (call : Calls) (ends : CallsEnd n call) where
  parse_enum_access_expression-Ends :
      (known strict : Bool) → Ends known strict (suc n) (parse_enum_access_expression call)
  unfolding parse_enum_access_expression
  parse_enum_access_expression-Ends known strict =
      search (ends_rules, parse_infix_call_expression-Ends, enum_access_of-Ends) depth 12

  -- A level of operators ends where its operands do.
  parse_operators-Ends :
      (test : Test) (combine : Combine) (operand : Parse Expression)
      → Guards test
      → ((known strict : Bool) → Ends known strict (suc n) operand)
      → (known strict : Bool)
      → Ends known strict (suc n) (parse_operators call test combine operand)
  unfolding parse_operators
  parse_operators-Ends test combine operand guards operands known strict =
      let lower = λ (known strict : Bool). lower-Ends operand (operands known strict) in
      search (ends_rules, guards, operands, lower, ends.rounds) depth 12

  parse_factor_expression-Ends :
      (known strict : Bool) → Ends known strict (suc n) (parse_factor_expression call)
  unfolding parse_factor_expression
  parse_factor_expression-Ends =
      search (ends_rules, parse_operators-Ends, parse_enum_access_expression-Ends) depth 12

  parse_term_expression-Ends :
      (known strict : Bool) → Ends known strict (suc n) (parse_term_expression call)
  unfolding parse_term_expression
  parse_term_expression-Ends =
      search (ends_rules, parse_operators-Ends, parse_factor_expression-Ends) depth 12

  parse_term_lower : (known strict : Bool) → Ends known strict n (parse_term_expression call)
  parse_term_lower known strict =
      lower-Ends (parse_term_expression call) (parse_term_expression-Ends known strict)

  parse_bitwise_shift_expression-Ends :
      (known strict : Bool) → Ends known strict (suc n) (parse_bitwise_shift_expression call)
  unfolding parse_bitwise_shift_expression
  parse_bitwise_shift_expression-Ends known strict =
      search
        (
          ends_rules, at_right_shift-Guards, parse_term_expression-Ends, parse_term_lower,
          ends.rounds,
        )
        depth 12 fits 3000

  parse_comparison_expression-Ends :
      (known strict : Bool) → Ends known strict (suc n) (parse_comparison_expression call)
  unfolding parse_comparison_expression
  parse_comparison_expression-Ends =
      search (ends_rules, parse_operators-Ends, parse_bitwise_shift_expression-Ends) depth 12

  parse_equality_expression-Ends :
      (known strict : Bool) → Ends known strict (suc n) (parse_equality_expression call)
  unfolding parse_equality_expression
  parse_equality_expression-Ends =
      search (ends_rules, parse_operators-Ends, parse_comparison_expression-Ends) depth 12

  parse_bitwise_or_expression-Ends :
      (known strict : Bool) → Ends known strict (suc n) (parse_bitwise_or_expression call)
  unfolding parse_bitwise_or_expression
  parse_bitwise_or_expression-Ends =
      search (ends_rules, parse_operators-Ends, parse_equality_expression-Ends) depth 12

  parse_bitwise_xor_expression-Ends :
      (known strict : Bool) → Ends known strict (suc n) (parse_bitwise_xor_expression call)
  unfolding parse_bitwise_xor_expression
  parse_bitwise_xor_expression-Ends =
      search (ends_rules, parse_operators-Ends, parse_bitwise_or_expression-Ends) depth 12

  parse_bitwise_and_expression-Ends :
      (known strict : Bool) → Ends known strict (suc n) (parse_bitwise_and_expression call)
  unfolding parse_bitwise_and_expression
  parse_bitwise_and_expression-Ends =
      search (ends_rules, parse_operators-Ends, parse_bitwise_xor_expression-Ends) depth 12

  parse_logical_and_expression-Ends :
      (known strict : Bool) → Ends known strict (suc n) (parse_logical_and_expression call)
  unfolding parse_logical_and_expression
  parse_logical_and_expression-Ends =
      search (ends_rules, parse_operators-Ends, parse_bitwise_and_expression-Ends) depth 12

  parse_logical_or_expression-Ends :
      (known strict : Bool) → Ends known strict (suc n) (parse_logical_or_expression call)
  unfolding parse_logical_or_expression
  parse_logical_or_expression-Ends =
      search (ends_rules, parse_operators-Ends, parse_logical_and_expression-Ends) depth 12

  pub parse_assignment_expression-Ends :
      (known strict : Bool) → Ends known strict (suc n) (parse_assignment_expression call)
  unfolding parse_assignment_expression
  parse_assignment_expression-Ends known strict =
      search (ends_rules, assignments_end, parse_logical_or_expression-Ends, ends.assignment) depth
        12

  pub parse_expression-Ends :
      (known strict : Bool) → Ends known strict (suc n) (parse_expression call)
  unfolding parse_expression
  parse_expression-Ends = parse_assignment_expression-Ends
