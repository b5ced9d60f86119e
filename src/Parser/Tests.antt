-- ===== src/Parser/Tests.antt =====
-- Runs of the parser on small texts, and the theorems applied to them.
use amun.Prelude.{pos, ◌↔◌, ℕ, ◌≡◌, ◌≢◌, refl, true, false, List, [], ◌∷◌, arith, some, none}
use amun.Prelude.Text.{Bytes, codes}
use amun.Token.{Token, TokenKind}
use amun.Token.{
  token_int, token_plus, token_semicolon, token_identifier, token_return, token_minus, token_break,
}
use amun.Tokenizer
use amun.Tokenizer.Scan.{
  scan_next_token, begin_token, scan_switch, switch_one, switch_two, switch_assign, one_character,
  two_characters, assign_or_twice, scan_other,
}
use amun.Tokenizer.Blank.{skip_whitespaces, skip_loop, skip_step}
use amun.Types.{AmunType, Types, MaybeType, struct_type, function_type}
use amun.Ast.{Statement, null_expression, Expression, binary_expression, break_statement}
use amun.Parser
use amun.Parser.{
  Outcome, Parser, Parse, Context, Environment, new, new_context, ok, crash, no_fuel, pure, ◌>>=◌,
  ◌>>◌, condition_scope, global_scope, AstNodeScope,
}
use amun.Parser.Reading.{advanced_token, is_current_kind, ◌or_else◌, Test}
use amun.Parser.Unit.{calls, parse_single_source_file}
use amun.Parser.Sources.{Files, no_sources}
use amun.Parser.Total.Sources.{parse_single_source_file-ends}
use amun.Parser.Primary.{parse_number_expression}
use amun.Parser.Levels.{parse_operators}
use amun.Parser.Breaks.{parse_times, break_messages}
use amun.Parser.Declarations.{Fields, resolve_fields}
use amun.Parser.Checks.{resolve_types, resolve_field_self_reference, resolve_function}
use amun.Parser.Ends.{Ended}
use amun.Parser.Left.{weight}
use amun.Parser.Total.Unit.{parse_expression-ends, parse_statement-ends}
use amun.Parser.Chains.{Chain, passes, parse_operators-Chain}
use amun.Parser.Laws.{Accepted, parse_times-Accepted}
use amun.Parser.SelfReferences.{
  open_references, open_in_types, resolve_fields-closed, resolve_fields-crash,
}

abbrev environment : Environment
environment = record {
  resolve_source_path = λ file. codes "main.amun";
  max_float_text = λ kind. codes "3.4";
  lowest_float_text = λ kind. codes "-3.4";
}

abbrev context : Context
context = new_context environment true

abbrev token : TokenKind → Bytes → Token
token kind literal = record {
  kind = kind;
  position = record { file_id = 0; line_number = 1; column_start = 1; column_end = 1 };
  literal = literal;
}

-- A state between tokens, with the text behind them.
abbrev state : AstNodeScope → List ℕ → Token → Token → Bytes → Parser
state scope levels current next text = record {
  context = context;
  tokenizer = Tokenizer.new 0 text;
  previous_token = none;
  current_token = some current;
  next_token = some next;
  generic_parameters_names = [];
  current_ast_scope = scope;
  loop_levels_stack = levels;
  current_struct_name = [];
  current_struct_unknown_fields = 1;
}

-- A file that loads itself and another one.
abbrev files : Files
files = record {
  contents =
      (codes "main.amun", codes "load { \"main\" \"a\" } fun main() int64 { return 1 + 2 << 3; }")
      ∷ (codes "a.amun", codes "load \"main\" import \"io\"")
      ∷ [];
  parent_path = λ path. [];
  preferred_separator = b'/';
}

parse_single_source_file-ends_example :
    parse_single_source_file files 3
      (codes "main.amun")
      no_sources
      (new context (Tokenizer.new 0 []))
    ≢ no_fuel
parse_single_source_file-ends_example =
    parse_single_source_file-ends files (codes "main.amun") no_sources
      (new context (Tokenizer.new 0 []))

parse_expression-ends_example :
    Ended true
      (state global_scope [] (token token_minus []) (token token_int (codes "1")) (codes ";"))
      ((calls 4).parse_expression
        (state global_scope [] (token token_minus []) (token token_int (codes "1")) (codes ";")))
unfolding weight Tokenizer.new
parse_expression-ends_example =
    parse_expression-ends
      (state global_scope [] (token token_minus []) (token token_int (codes "1")) (codes ";")) 4
      (omega arith)

parse_statement-ends_example :
    Ended true
      (state global_scope [] (token token_return []) (token token_int (codes "1")) (codes ";"))
      ((calls 4).parse_statement
        (state global_scope [] (token token_return []) (token token_int (codes "1")) (codes ";")))
unfolding weight Tokenizer.new
parse_statement-ends_example =
    parse_statement-ends
      (state global_scope [] (token token_return []) (token token_int (codes "1")) (codes ";")) 4
      (omega arith)

abbrev node : AmunType
node = AmunType.struct (struct_type (codes "Node") [] Types.nil [] Types.nil false false false)

abbrev fields : Types
fields = Types.cons (AmunType.pointer AmunType.none) (
    Types.cons (AmunType.static_array (AmunType.pointer (AmunType.pointer AmunType.none)) 3)
      Types.nil)

abbrev list_fields : Fields
list_fields = record { fields_names = codes "next" ∷ codes "children" ∷ []; fields_types = fields }

abbrev in_struct : Parser
in_struct =
    record (state global_scope [] (token token_semicolon []) (token token_semicolon []) []) {
      current_struct_unknown_fields = 2;
    }

resolve_fields-closed_example :
    (g : Fields) × (resolve_fields node list_fields in_struct
      ≡ ok g (record in_struct { current_struct_unknown_fields = 0 }))
    × (open_in_types g.fields_types ≡ 0)
unfolding open_references
resolve_fields-closed_example = resolve_fields-closed node list_fields in_struct refl refl

-- A field that points to a function with a parameter of the struct.
abbrev visitor : Fields
visitor = record {
  fields_names = codes "visit" ∷ [];
  fields_types =
      Types.cons
        (AmunType.pointer (
          AmunType.function (
            function_type (token token_identifier []) (Types.cons AmunType.none Types.nil)
              AmunType.void 0 false MaybeType.null false false [])))
        Types.nil;
}

abbrev in_visitor : Parser
in_visitor = state global_scope [] (token token_semicolon []) (token token_semicolon []) []

resolve_fields-crash_example : (resolve_fields node visitor in_visitor ≡ crash) ↔ (
    (in_visitor.current_struct_unknown_fields ≢ 0)
    × (in_visitor.current_struct_unknown_fields ≢ open_in_types visitor.fields_types))
unfolding open_references
resolve_fields-crash_example = resolve_fields-crash node visitor in_visitor refl

abbrev in_loop : Parser
in_loop = state condition_scope (1 ∷ []) (token token_semicolon []) (token token_semicolon []) []

abbrev behind : Outcome Statement → Parser
behind (ok statement t) = t
behind _ = in_loop

abbrev left_loop : Parser
left_loop =
    behind (parse_times (calls 2) break_messages [] break_statement (token token_break []) in_loop)

parse_times-Accepted_example :
    (parse_times (calls 2) break_messages [] break_statement (token token_break []) in_loop
      ≡ ok (break_statement (token token_break []) false (pos 1)) left_loop)
    ↔ Accepted
        (calls 2)
        []
        break_statement
        (token token_break [])
        in_loop
        (break_statement (token token_break []) false (pos 1))
        left_loop
parse_times-Accepted_example =
    parse_times-Accepted (calls 2) break_messages [] break_statement (token token_break []) in_loop
      (break_statement (token token_break []) false (pos 1)) left_loop

-- `1 + 2 + 3`, the first operand and operator read.
abbrev sum : Parser
sum = state global_scope [] (token token_int (codes "1")) (token token_plus []) (codes "2+3")

abbrev is_additive : Test
unfolding is_current_kind ◌or_else◌
is_additive = is_current_kind token_plus or_else is_current_kind token_minus

abbrev expression_of : Outcome Expression → Expression
expression_of (ok e t) = e
expression_of _ = null_expression (token token_semicolon [])

abbrev state_of : Outcome Expression → Parser
state_of (ok e t) = t
state_of _ = sum

abbrev read : Outcome Expression
read = parse_operators (calls 4) is_additive binary_expression parse_number_expression sum

parse_operators-Chain_example :
    Chain is_additive binary_expression parse_number_expression sum
      (expression_of read)
      (state_of read)
    × (passes is_additive (state_of read) (state_of read).current_token ≡ false)
unfolding parse_operators calls is_additive Parser.Reading.repeat Parser.Reading.repeat_while
    Parser.Reading.when Parser.pure Parser.value Parser.◌>>=◌ Parser.Reading.choose
    Parser.Reading.peek_current Parser.Reading.peek_and_advance_token Parser.Reading.advanced_token
    is_current_kind ◌or_else◌ parse_number_expression Parser.Checks.get_number_kind
    Parser.Checks.kind_of_number scan_next_token skip_whitespaces skip_loop skip_step begin_token
    Tokenizer.advance Tokenizer.peek Tokenizer.peek_next Tokenizer.match Tokenizer.match_two
    Tokenizer.is_source_available Tokenizer.advance_while scan_switch switch_one switch_two
    switch_assign one_character two_characters assign_or_twice scan_other Tokenizer.build_token
    Tokenizer.build_token_span Tokenizer.new Tokenizer.Chars.is_alpha Tokenizer.Chars.is_digit
    Tokenizer.Chars.is_underscore Tokenizer.Number.consume_number Tokenizer.Number.scan_digits
    Tokenizer.Number.after_digits Tokenizer.Number.after_signed Tokenizer.Number.signed_suffix
    Tokenizer.Number.unsigned_suffix Tokenizer.Number.float_suffix Tokenizer.Number.no_suffix
    Tokenizer.Number.number_token Tokenizer.Number.remove_underscores
parse_operators-Chain_example =
    parse_operators-Chain (calls 4) is_additive binary_expression parse_number_expression sum refl
