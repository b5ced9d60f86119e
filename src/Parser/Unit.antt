-- ===== src/Parser/Unit.antt =====
-- src/amun_parser.cpp: the recursive calls on fuel, `parse_compilation_unit`, and the files that
-- a file imports or loads.
use amun.Prelude.{◌+◌, ◌++◌, Bool, true, false, ◌||◌, List, [], ◌∷◌, length, if◌then◌else◌}
use amun.Prelude.Text.{Bytes, codes}
use amun.Token.{TokenSpan, token_string, token_open_brace, token_close_brace}
use amun.Tokenizer
use amun.Parser.{
  Parser, Outcome, ok, stop, no_fuel, crash, pure, new, report_error, Diagnostic, DiagnosticLevel,
  error, warning,
}
use amun.Parser.Reading.{consume_kind, assert_kind, is_not, ◌and_then◌}
use amun.Parser.Checks.{check_unnecessary_semicolon_warning}
use amun.Parser.Sources.{
  SourceManager, Files, register_source_path, is_path_registered, is_file_exists, read_file_content,
  file_parent_path, with_sources,
}
use amun.Prelude.{ℕ, zero, suc}
use amun.Token.{token_import, token_load, token_type}
use amun.Ast.{Statements, append_statement, empty, followed_by}
use amun.Parser.{Parse, ◌>>=◌, ◌>>◌}
use amun.Parser.Reading.{when, repeat, again, advanced_token, is_current_kind, is_source_available}
use amun.Parser.Calls.{Calls, no_calls}
use amun.Parser.Types.{parse_type, parse_type_with_prefix}
use amun.Parser.Postfix.{parse_infix_call_expression, parse_prefix_expression}
use amun.Parser.Levels.{parse_assignment_expression, parse_expression}
use amun.Parser.Statements.{parse_type_alias_declaration}
use amun.Parser.Control.{parse_statement}
use amun.Parser.Declarations.{parse_declaration_statement}

-- The functions with so much fuel. A call wants one more than the tokens left.
unfoldable pub calls : ℕ → Calls
calls zero = no_calls
calls (suc fuel) = record {
  rounds = suc fuel;
  parse_type = parse_type (calls fuel);
  parse_type_with_prefix = parse_type_with_prefix (calls fuel);
  parse_expression = parse_expression (calls fuel);
  parse_assignment_expression = parse_assignment_expression (calls fuel);
  parse_infix_call_expression = parse_infix_call_expression (calls fuel);
  parse_prefix_expression = parse_prefix_expression (calls fuel);
  parse_statement = parse_statement (calls fuel);
}

abbrev pub append_statements : Statements → Statements → Statements
append_statements nodes empty = nodes
append_statements nodes (followed_by s ss) = append_statements (append_statement nodes s) ss

-- The nodes that are read, and the paths that are registered.
abbrev pub Nodes : Type 0
Nodes = Statements × SourceManager

-- `parse_single_source_file`, by the path and the paths that are registered.
abbrev pub Source : Type 0
Source = Bytes → SourceManager → Parse Nodes

-- Whether the diagnostics have an error: `level_count(DiagnosticLevel::ERROR) > 0`.
abbrev is_error : DiagnosticLevel → Bool
is_error error = true
is_error warning = false

abbrev pub has_error : List Diagnostic → Bool
has_error [] = false
has_error (d ∷ ds) = is_error d.level || has_error ds

module _ (files : Files) (single : Source) where
  -- The file of a name that `import` or `load` gives, read unless its path is registered.
  unfoldable pub add_source : Bytes → TokenSpan → Bytes → Nodes → Parse Nodes
  add_source path position missing p =
      if is_path_registered path p.1
      then pure p
      else if is_file_exists files path
      then (do nodes ← single path p.1; pure (append_statements p.0 nodes.0, nodes.1))
      else report_error position missing

  -- `parse_import_declaration` and `parse_load_declaration`, which differ in the path of a name and in two
  -- messages: the names in a block, and a single name.
  module _ (expect : Bytes) (path_of missing : Bytes → Bytes) (call : Calls)
      (manager : SourceManager) where
    unfoldable pub add_named : Nodes → Parse (Bool × Nodes)
    add_named p = do
      library_name ← consume_kind token_string expect
      q ←
          add_source (path_of library_name.literal) library_name.position
            (missing library_name.literal) p
      again q

    unfoldable pub parse_source_block : Parse Nodes
    parse_source_block = do
      advanced_token
      p ←
          repeat call.rounds
            (is_source_available and_then is_not (is_current_kind token_close_brace)) add_named
            (empty, manager)
      assert_kind token_close_brace (codes "Expect Close brace `}` after import block")
      check_unnecessary_semicolon_warning
      pure p

    unfoldable pub parse_source_name : Parse Nodes
    parse_source_name = do
      library_name ← consume_kind token_string expect
      check_unnecessary_semicolon_warning
      add_source (path_of library_name.literal) library_name.position (missing library_name.literal)
          (empty, manager)

    unfoldable pub parse_sources : Parse Nodes
    parse_sources =
        advanced_token
        >> when (is_current_kind token_open_brace) parse_source_block parse_source_name

  unfoldable pub parse_import_declaration : Calls → SourceManager → Parse Nodes
  parse_import_declaration =
      parse_sources (codes "Expect string as library name after import statement")
        (λ name. codes "../lib/" ++ (name ++ codes ".amun"))
        (λ name. codes "No standard library with name " ++ name)

  -- The path is that of the file's directory, with the name.
  unfoldable pub parse_load_declaration : Bytes → Calls → SourceManager → Parse Nodes
  parse_load_declaration parent =
      parse_sources (codes "Expect string as file name after load statement")
        (λ name. parent ++ (name ++ codes ".amun"))
        (λ name. codes "Path not exists " ++ (parent ++ (name ++ codes ".amun")))

  unfoldable pub parse_declaration : Bytes → Calls → Nodes → Parse (Bool × Nodes)
  parse_declaration parent call p =
      when (is_current_kind token_import)
        (do q ← parse_import_declaration call p.1; again (append_statements p.0 q.0, q.1))
        (when (is_current_kind token_load)
          (do q ← parse_load_declaration parent call p.1; again (append_statements p.0 q.0, q.1))
          (when (is_current_kind token_type) (parse_type_alias_declaration call >> again p) (do
            statement ← parse_declaration_statement call
            again (append_statement p.0 statement, p.1))))

  unfoldable pub parse_declarations : Bytes → Calls → SourceManager → Parse Nodes
  parse_declarations parent call manager =
      repeat call.rounds is_source_available (parse_declaration parent call) (empty, manager)

  -- The two first tokens, then the declarations. Behind a report the source gives the nodes that it has
  -- read, which its callers drop; here the outcome is `stop`.
  unfoldable pub parse_compilation_unit : Bytes → Calls → SourceManager → Parse Nodes
  parse_compilation_unit parent call manager =
      advanced_token >> advanced_token >> parse_declarations parent call manager

-- What the parser of a file leaves to the parser that asked for it: the shared context, and a "Stop" where
-- there is an error.
abbrev pub after_source : Parser → Outcome Nodes → Outcome Nodes
after_source s (ok nodes t) =
    if has_error t.context.diagnostics
    then stop (record s { context = t.context })
    else ok nodes (record s { context = t.context })
after_source s (stop t) = stop (record s { context = t.context })
after_source s no_fuel = no_fuel
after_source s crash = crash

-- A parser of its own for the file; `depth` is the fuel for files that ask for files.
unfoldable pub parse_single_source_file : Files → ℕ → Source
parse_single_source_file files zero path manager s = no_fuel
parse_single_source_file files (suc depth) path manager s =
    let source_content = read_file_content files path in
    let registered = register_source_path path manager in
    let context = with_sources registered.1 s.context in
    after_source s (
      parse_compilation_unit files (parse_single_source_file files depth)
        (file_parent_path files path) (calls (length source_content + 3)) registered.1
        (new context (Tokenizer.new registered.0 source_content)))
