-- ===== src/Parser/Calls.antt =====
-- The recursion of the parser (src/amun_parser.cpp): what a parsing function may call once it has read
-- a token. `rounds` is the fuel of its loops. Calls that come before the first token are direct.
use amun.Prelude.{ℕ}
use amun.Types.{AmunType}
use amun.Ast.{Expression, Statement}
use amun.Parser.{Parse, out_of_fuel}

pub record Calls : Type 0 where
  pub rounds : ℕ
  pub parse_type : Parse AmunType
  pub parse_type_with_prefix : Parse AmunType
  pub parse_expression : Parse Expression
  pub parse_assignment_expression : Parse Expression
  pub parse_infix_call_expression : Parse Expression
  pub parse_prefix_expression : Parse Expression
  pub parse_statement : Parse Statement

-- Without fuel.
abbrev pub no_calls : Calls
no_calls = record {
  rounds = 0;
  parse_type = out_of_fuel;
  parse_type_with_prefix = out_of_fuel;
  parse_expression = out_of_fuel;
  parse_assignment_expression = out_of_fuel;
  parse_infix_call_expression = out_of_fuel;
  parse_prefix_expression = out_of_fuel;
  parse_statement = out_of_fuel;
}
