-- ===== src/Parser/Total/Reads.antt =====
-- Termination of `parse_import_declaration` and `parse_load_declaration` in src/amun_parser.cpp, given that
-- of reading a file; the number of files that are not registered.
use amun.Prelude.{
  ℕ, suc, ◌<◌, ◌≤◌, ◌≡◌, refl, sym, ap, ◌∙◌, true, false, List, [], ◌∷◌, arith, if◌then◌else◌,
  length, Bool-cases, inl, inr,
}
use amun.Prelude.Text.{Bytes, equal, equal_iff}
use amun.Token.{TokenSpan, token_string, token_open_brace, token_close_brace}
use amun.Ast.{empty}
use amun.ScopedMap.{contains}
use amun.Parser.{pure, new}
use amun.Parser.Reading.{
  advanced_token, repeat, again, consume_kind, assert_kind, is_current_kind, is_source_available,
  is_not, ◌and_then◌,
}
use amun.Parser.Checks.{is_contains, check_unnecessary_semicolon_warning}
use amun.Parser.Calls.{Calls}
use amun.Parser.Sources.{
  SourceManager, Files, register_source_path, is_path_registered, is_file_exists,
}
use amun.Parser.Unit.{
  calls, Nodes, Source, add_source, add_named, parse_source_block, parse_source_name, parse_sources,
  append_statements,
}
use amun.Parser.Ends.{Ends, pure-Still}
use amun.Parser.Rules.{
  Still-Ends, report_error-Ends, rest-Ends, strict-Ends, when-Ends, is_source_available-Guards,
  and_then-Guards,
}
use amun.Parser.Leaves.{
  advanced_token-Ends, advanced_token_any-Ends, consume_kind-Ends, assert_kind-Ends,
}
use amun.Parser.Total.Checks.{check_unnecessary_semicolon_warning-Ends}
use amun.Parser.Total.Unit.{calls-CallsEnd}
use amun.Parser.Total.Given.{
  Gives, any-Gives, pure-Gives, report_error-Gives, bind-Gives, if-Gives, when-Gives, repeat-Gives,
  repeat_given-Ends,
}

-- How many of the files are not registered.
unfoldable pub unread : List Bytes → List (Bytes × Bytes) → ℕ
unread set [] = 0
unread set ((path, text) ∷ files) =
    if is_contains path set then unread set files else suc (unread set files)

pub unread-length :
    (set : List Bytes) (files : List (Bytes × Bytes)) → unread set files ≤ length files
unfolding unread
unread-length set [] = omega arith
unread-length set ((path, text) ∷ files) = ground (arith, unread-length set files)

unread-more :
    (path : Bytes) (set : List Bytes) (files : List (Bytes × Bytes))
    → unread (path ∷ set) files ≤ unread set files
unfolding unread is_contains
unread-more path set [] = omega arith
unread-more path set ((p, text) ∷ files) = ground (arith, unread-more path set files)

unread-less :
    (path : Bytes) (set : List Bytes) (files : List (Bytes × Bytes))
    → is_contains path set ≡ false
    → contains path files ≡ true
    → unread (path ∷ set) files < unread set files
unfolding unread is_contains
unread-less path set [] h e = absurd (cc e)
unread-less path set ((p, text) ∷ files) h e = elim (Bool-cases (equal path p)) [
  | inl same ↦
      rw (same, sym (ap (λ x. is_contains x set) ((equal_iff path p).0 same)) ∙ h)
        (omega (arith, unread-more path set files))
  | inr other ↦ ground (arith, other, unread-less path set files h (ground (arith, other, e)))
]

-- The files that are unread where these paths are registered.
abbrev pub left : Files → SourceManager → ℕ
left files manager = unread manager.files_set files.contents

pub registered-left :
    (files : Files) (path : Bytes) (manager : SourceManager)
    → left files (register_source_path path manager).1 ≤ left files manager
unfolding register_source_path
registered-left files path manager = unread-more path manager.files_set files.contents

-- At most so many files are unread.
unfoldable pub Bound : Files → ℕ → Nodes → Type 0
Bound files d p = left files p.1 ≤ d

-- A reader of files that ends where, its file registered, fewer than `depth` are unread; no file that was
-- read is unread behind it.
pub record Reads (files : Files) (depth : ℕ) (single : Source) : Type 0 where
  pub ends :
      (path : Bytes) (manager : SourceManager) (n : ℕ)
      → left files (register_source_path path manager).1 < depth
      → Ends false false n (single path manager)
  pub gives :
      (path : Bytes) (manager : SourceManager)
      → Gives (λ r. left files r.1 ≤ left files manager) (single path manager)

module _ (files : Files) (depth : ℕ) (single : Source) (reads : Reads files depth single) where
  add_source-Ends :
      (path : Bytes) (position : TokenSpan) (missing : Bytes) (p : Nodes) (n : ℕ)
      → Bound files depth p
      → Ends false false n (add_source files single path position missing p)
  unfolding add_source is_path_registered is_file_exists register_source_path Bound
  add_source-Ends path position missing p n b = elim (Bool-cases (is_contains path p.1.files_set)) [
    | inl old ↦ rw old (Still-Ends (pure p) (pure-Still p))
    | inr new ↦ elim (Bool-cases (contains path files.contents)) [
      | inl found ↦
          rw (new, found)
            (rest-Ends (single path p.1) _
              (reads.ends path p.1 n
                (omega (arith, b, unread-less path p.1.files_set files.contents new found)))
              (λ r.
                Still-Ends (pure (append_statements p.0 r.0, r.1))
                  (pure-Still (append_statements p.0 r.0, r.1))))
      | inr absent ↦ rw (new, absent) (report_error-Ends position missing)
    ]
  ]

  add_source-Gives :
      (d : ℕ) (path : Bytes) (position : TokenSpan) (missing : Bytes) (p : Nodes)
      → Bound files d p
      → Gives (Bound files d) (add_source files single path position missing p)
  unfolding add_source Bound
  add_source-Gives d path position missing p b =
      if-Gives (Bound files d) (is_path_registered path p.1) (pure p) _
        (pure-Gives (Bound files d) p b)
        (if-Gives (Bound files d) (is_file_exists files path) _ _
          (bind-Gives (λ r. left files r.1 ≤ left files p.1) (Bound files d) (single path p.1) _
            (reads.gives path p.1)
            (λ r h.
              pure-Gives (Bound files d) (append_statements p.0 r.0, r.1) (omega (arith, b, h))))
          (report_error-Gives (Bound files d) position missing))

  module _ (expect : Bytes) (path_of missing : Bytes → Bytes) where
    add_named-Ends :
        (call : Calls) (manager : SourceManager) (n : ℕ) (p : Nodes)
        → Bound files depth p
        → Ends true true n (add_named files single expect path_of missing call manager p)
    unfolding add_named
    add_named-Ends call manager n p b =
        strict-Ends (consume_kind token_string expect) _
          (consume_kind-Ends token_string expect refl)
          (λ t.
            rest-Ends (add_source files single (path_of t.literal) t.position (missing t.literal) p)
              _ (add_source-Ends (path_of t.literal) t.position (missing t.literal) p n b)
              (λ q. Still-Ends (again q) (pure-Still (true, q))))

    add_named-Gives :
        (d : ℕ) (call : Calls) (manager : SourceManager) (p : Nodes)
        → Bound files d p
        → Gives
            (λ r. Bound files d r.1)
            (add_named files single expect path_of missing call manager p)
    unfolding add_named
    add_named-Gives d call manager p b =
        bind-Gives (λ _. Unit) (λ r. Bound files d r.1) (consume_kind token_string expect) _
          (any-Gives _)
          (λ t _.
            bind-Gives (Bound files d) (λ r. Bound files d r.1)
              (add_source files single (path_of t.literal) t.position (missing t.literal) p) _
              (add_source-Gives d (path_of t.literal) t.position (missing t.literal) p b)
              (λ q h. pure-Gives (λ r. Bound files d r.1) (true, q) h))

    parse_source_block-Ends :
        (n : ℕ) (manager : SourceManager)
        → left files manager ≤ depth
        → Ends false false n
            (parse_source_block files single expect path_of missing (calls n) manager)
    unfolding parse_source_block Bound
    parse_source_block-Ends n manager b =
        rest-Ends advanced_token _ (advanced_token_any-Ends false n) (λ _.
          rest-Ends (repeat (calls n).rounds _ _ (empty, manager)) _
            (repeat_given-Ends (Bound files depth)
              (is_source_available and_then is_not (is_current_kind token_close_brace))
              (add_named files single expect path_of missing (calls n) manager) (calls n).rounds
              (empty, manager) (calls-CallsEnd n).rounds
              (and_then-Guards is_source_available (is_not (is_current_kind token_close_brace))
                is_source_available-Guards)
              b (add_named-Ends (calls n) manager n) (add_named-Gives depth (calls n) manager))
            (λ p.
              rest-Ends (assert_kind token_close_brace _) _
                (assert_kind-Ends token_close_brace _ refl)
                (λ _.
                  rest-Ends check_unnecessary_semicolon_warning _
                    (check_unnecessary_semicolon_warning-Ends false n)
                    (λ _. Still-Ends (pure p) (pure-Still p)))))

    parse_source_name-Ends :
        (n : ℕ) (manager : SourceManager)
        → left files manager ≤ depth
        → Ends false false n
            (parse_source_name files single expect path_of missing (calls n) manager)
    unfolding parse_source_name Bound
    parse_source_name-Ends n manager b =
        rest-Ends (consume_kind token_string expect) _ (consume_kind-Ends token_string expect refl)
          (λ t.
            rest-Ends check_unnecessary_semicolon_warning _
              (check_unnecessary_semicolon_warning-Ends false n)
              (λ _.
                add_source-Ends (path_of t.literal) t.position (missing t.literal) (empty, manager)
                  n b))

    pub parse_sources-Ends :
        (n : ℕ) (manager : SourceManager)
        → left files manager ≤ depth
        → Ends true true n (parse_sources files single expect path_of missing (calls n) manager)
    unfolding parse_sources
    parse_sources-Ends n manager b = strict-Ends advanced_token _ (advanced_token-Ends true n) (λ _.
        when-Ends (is_current_kind token_open_brace) _ _ (parse_source_block-Ends n manager b)
          (parse_source_name-Ends n manager b))

    pub parse_sources-Gives :
        (call : Calls) (manager : SourceManager)
        → Gives
            (Bound files (left files manager))
            (parse_sources files single expect path_of missing call manager)
    unfolding parse_sources parse_source_block parse_source_name Bound
    parse_sources-Gives call manager =
        let Q = Bound files (left files manager) in
        bind-Gives (λ _. Unit) Q advanced_token _ (any-Gives advanced_token)
          (λ _ _.
            when-Gives Q (is_current_kind token_open_brace) _ _
              (bind-Gives (λ _. Unit) Q advanced_token _ (any-Gives advanced_token)
                (λ _ _.
                  bind-Gives Q Q (repeat call.rounds _ _ (empty, manager)) _
                    (repeat-Gives Q _ (add_named files single expect path_of missing call manager)
                      call.rounds (empty, manager)
                      (add_named-Gives (left files manager) call manager) (omega arith))
                    (λ p b.
                      bind-Gives (λ _. Unit) Q (assert_kind token_close_brace _) _ (any-Gives _)
                        (λ _ _.
                          bind-Gives (λ _. Unit) Q check_unnecessary_semicolon_warning _
                            (any-Gives _) (λ _ _. pure-Gives Q p b)))))
              (bind-Gives (λ _. Unit) Q (consume_kind token_string expect) _ (any-Gives _)
                (λ t _.
                  bind-Gives (λ _. Unit) Q check_unnecessary_semicolon_warning _ (any-Gives _)
                    (λ _ _.
                      add_source-Gives (left files manager) (path_of t.literal) t.position
                        (missing t.literal) (empty, manager) (omega arith)))))
