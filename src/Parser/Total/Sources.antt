-- ===== src/Parser/Total/Sources.antt =====
-- Termination of `parse_single_source_file` in src/amun_parser.cpp, over the number of paths that are not
-- registered.
use amun.Prelude.{
  ℕ, zero, suc, ◌+◌, ◌≤◌, ◌≡◌, ◌≢◌, Bool, true, false, arith, length, Bool-cases, inl, inr,
}
use amun.Prelude.Text.{Bytes}
use amun.Token.{token_import, token_load, token_type}
use amun.Tokenizer
use amun.Ast.{empty, append_statement}
use amun.Parser.{Parser, Outcome, ok, stop, no_fuel, crash, new, ◌>>◌}
use amun.Parser.Reading.{advanced_token, again, is_current_kind, is_source_available}
use amun.Parser.Calls.{Calls}
use amun.Parser.Sources.{
  SourceManager, Files, register_source_path, read_file_content, file_parent_path, with_sources,
}
use amun.Parser.Unit.{
  calls, Nodes, Source, parse_import_declaration, parse_load_declaration, parse_declaration,
  parse_declarations, parse_compilation_unit, after_source, parse_single_source_file,
  append_statements, has_error,
}
use amun.Parser.Statements.{parse_type_alias_declaration}
use amun.Parser.Declarations.{parse_declaration_statement}
use amun.Parser.Left.{tokens_left}
use amun.Parser.Ends.{Ends, Ended, ended, stopped, crashed, pure-Still}
use amun.Parser.Rules.{
  Still-Ends, rest-Ends, strict-Ends, when-Ends, lower-Ends, is_source_available-Guards,
}
use amun.Parser.Leaves.{advanced_token_any-Ends}
use amun.Parser.Total.Statements.{parse_type_alias_declaration-Ends}
use amun.Parser.Total.Declarations.{parse_declaration_statement-Ends}
use amun.Parser.Total.Unit.{calls-CallsEnd, Ended-fuel, tokens_left-new}
use amun.Parser.Total.Given.{
  Gives, any-Gives, pure-Gives, bind-Gives, when-Gives, repeat-Gives, repeat_given-Ends,
}
use amun.Parser.Total.Reads.{
  left, Bound, Reads, registered-left, unread-length, parse_sources-Ends, parse_sources-Gives,
}

module _ (files : Files) (depth : ℕ) (single : Source) (reads : Reads files depth single) where
  parse_declaration-Ends :
      (parent : Bytes) (n : ℕ) (p : Nodes)
      → Bound files depth p
      → Ends true true n (parse_declaration files single parent (calls n) p)
  unfolding parse_declaration parse_import_declaration parse_load_declaration Bound
  parse_declaration-Ends parent n p b =
      let ends = calls-CallsEnd n in
      when-Ends (is_current_kind token_import) _ _
        (strict-Ends _ _ (parse_sources-Ends files depth single reads _ _ _ n p.1 b) (λ q.
          Still-Ends (again (append_statements p.0 q.0, q.1))
            (pure-Still (true, (append_statements p.0 q.0, q.1)))))
        (when-Ends (is_current_kind token_load) _ _
          (strict-Ends _ _ (parse_sources-Ends files depth single reads _ _ _ n p.1 b) (λ q.
            Still-Ends (again (append_statements p.0 q.0, q.1))
              (pure-Still (true, (append_statements p.0 q.0, q.1)))))
          (when-Ends (is_current_kind token_type) _ _
            (strict-Ends (parse_type_alias_declaration (calls n)) _
              (lower-Ends (parse_type_alias_declaration (calls n))
                (parse_type_alias_declaration-Ends (calls n) ends true true))
              (λ _. Still-Ends (again p) (pure-Still (true, p))))
            (strict-Ends (parse_declaration_statement (calls n)) _
              (lower-Ends (parse_declaration_statement (calls n))
                (parse_declaration_statement-Ends (calls n) ends true true))
              (λ s.
                Still-Ends (again (append_statement p.0 s, p.1))
                  (pure-Still (true, (append_statement p.0 s, p.1)))))))

  parse_declaration-Gives :
      (d : ℕ) (parent : Bytes) (call : Calls) (p : Nodes)
      → Bound files d p
      → Gives (λ r. Bound files d r.1) (parse_declaration files single parent call p)
  unfolding parse_declaration parse_import_declaration parse_load_declaration Bound
  parse_declaration-Gives d parent call p b =
      let Q = λ (r : Bool × Nodes). Bound files d r.1 in
      let sources = λ (q : Nodes) (h : Bound files (left files p.1) q).
        pure-Gives Q (true, (append_statements p.0 q.0, q.1)) (omega (arith, b, h)) in
      when-Gives Q (is_current_kind token_import) _ _
        (bind-Gives (Bound files (left files p.1)) Q _ _
          (parse_sources-Gives files depth single reads _ _ _ call p.1) sources)
        (when-Gives Q (is_current_kind token_load) _ _
          (bind-Gives (Bound files (left files p.1)) Q _ _
            (parse_sources-Gives files depth single reads _ _ _ call p.1) sources)
          (when-Gives Q (is_current_kind token_type) _ _
            (bind-Gives (λ _. Unit) Q (parse_type_alias_declaration call) _ (any-Gives _)
              (λ _ _. pure-Gives Q (true, p) b))
            (bind-Gives (λ _. Unit) Q (parse_declaration_statement call) _ (any-Gives _)
              (λ s _. pure-Gives Q (true, (append_statement p.0 s, p.1)) b))))

  parse_compilation_unit-Ends :
      (parent : Bytes) (n : ℕ) (manager : SourceManager)
      → left files manager ≤ depth
      → Ends false false n (parse_compilation_unit files single parent (calls n) manager)
  unfolding parse_compilation_unit parse_declarations Bound
  parse_compilation_unit-Ends parent n manager b =
      rest-Ends (advanced_token >> advanced_token) _
        (rest-Ends advanced_token _ (advanced_token_any-Ends false n)
          (λ _. advanced_token_any-Ends false n))
        (λ _.
          repeat_given-Ends (Bound files depth) is_source_available
            (parse_declaration files single parent (calls n)) (calls n).rounds (empty, manager)
            (calls-CallsEnd n).rounds is_source_available-Guards b (parse_declaration-Ends parent n)
            (λ p. parse_declaration-Gives depth parent (calls n) p))

  parse_compilation_unit-Gives :
      (parent : Bytes) (call : Calls) (manager : SourceManager)
      → Gives
          (Bound files (left files manager))
          (parse_compilation_unit files single parent call manager)
  unfolding parse_compilation_unit parse_declarations Bound
  parse_compilation_unit-Gives parent call manager =
      bind-Gives (λ _. Unit) (Bound files (left files manager)) (advanced_token >> advanced_token) _
        (any-Gives _)
        (λ _ _.
          repeat-Gives (Bound files (left files manager)) is_source_available
            (parse_declaration files single parent call) call.rounds (empty, manager)
            (parse_declaration-Gives (left files manager) parent call) (omega arith))

after_source-Ended :
    (s : Parser) {t : Parser} (o : Outcome Nodes)
    → Ended false t o
    → Ended false s (after_source s o)
after_source-Ended s (ok nodes t) (ended h) = elim (Bool-cases (has_error t.context.diagnostics)) [
  | inl e ↦ rw e stopped
  | inr e ↦ rw e (ended (omega arith))
]
after_source-Ended s (stop t) h = stopped
after_source-Ended s crash h = crashed
after_source-Ended s no_fuel h = elim h [ ]

after_source-ok :
    (s : Parser) (o : Outcome Nodes) {nodes : Nodes} {t : Parser}
    → after_source s o ≡ ok nodes t
    → (u : Parser) × (o ≡ ok nodes u)
after_source-ok s (ok nodes t) h = elim (Bool-cases (has_error t.context.diagnostics)) [
  | inl e ↦ absurd (cc (h, e))
  | inr e ↦ (t, ground (arith, h, e))
]
after_source-ok s (stop t) h = absurd (cc h)
after_source-ok s crash h = absurd (cc h)
after_source-ok s no_fuel h = absurd (cc h)

-- With fuel for `depth` files within one another, a file is read where fewer are unread.
parse_single_source_file-Reads :
    (files : Files) (depth : ℕ) → Reads files depth (parse_single_source_file files depth)
unfolding parse_single_source_file Bound
parse_single_source_file-Reads files zero = record {
  ends = λ path manager n h. absurd (omega (arith, h));
  gives = λ path manager. record { result = λ s e. absurd (cc e) };
}
parse_single_source_file-Reads files (suc depth) =
    let reads = parse_single_source_file-Reads files depth in
    let single = parse_single_source_file files depth in
    record {
      ends = λ path manager n h. record {
        run = λ s e l. after_source-Ended s _ (
            (parse_compilation_unit-Ends files depth single reads (file_parent_path files path)
                (length (read_file_content files path) + 3) (register_source_path path manager).1
                (omega (arith, h))).run
              (new (with_sources (register_source_path path manager).1 s.context) (
                Tokenizer.new (register_source_path path manager).0 (read_file_content files path)))
              tt
              (omega (
                arith,
                tokens_left-new (with_sources (register_source_path path manager).1 s.context)
                    (register_source_path path manager).0 (read_file_content files path),
              )));
      };
      gives = λ path manager. record {
        result = λ s e.
            let u = after_source-ok s _ e in
            omega (
              arith,
              registered-left files path manager,
              (parse_compilation_unit-Gives files depth single reads (file_parent_path files path)
                    (calls (length (read_file_content files path) + 3))
                    (register_source_path path manager).1).result
                  _ u.1,
            );
      };
    }

-- Parsing a file ends with a tree, a report or an exception, together with all the files that it imports
-- and loads, whatever they contain and however they ask for one another, for each finite table of the
-- paths under which files are found: there is fuel enough for as many files within one another as the
-- table has paths and one more, and in each for three rounds more than it has bytes.
pub parse_single_source_file-ends :
    (files : Files) (path : Bytes) (manager : SourceManager) (s : Parser)
    → parse_single_source_file files (length files.contents + 1) path manager s ≢ no_fuel
parse_single_source_file-ends files path manager s = Ended-fuel (
    ((parse_single_source_file-Reads files (length files.contents + 1)).ends path manager
        (tokens_left s + 1)
        (omega (
          arith,
          registered-left files path manager,
          unread-length manager.files_set files.contents,
        ))).run
      s tt (omega arith))
