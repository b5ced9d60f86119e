-- ===== src/Parser/Leaves.antt =====
-- The reading primitives and the loops of src/amun_parser.cpp end; the set of the rules for `search`.
use amun.Prelude.{
  ℕ, zero, suc, ◌<◌, ◌≤◌, ◌≡◌, refl, Bool, true, false, arith, if◌then◌else◌, Bool-cases, inl, inr,
}
use amun.Prelude.Text.{Bytes}
use amun.Token.{TokenKind, kind_eq, token_end_of_file, token_invalid, token_semicolon}
use amun.Tokenizer.Scan.{scan_next_token}
use amun.Parser.{Parser, Parse, pure, ◌>>=◌, report_error}
use amun.Parser.Reading.{
  peek_current, peek_previous, peek_and_advance_token, consume_kind, assert_kind, advanced_token,
  repeat, repeat_while, Test, is_current_kind,
}
use amun.Parser.Left.{scan_next_token-unscanned}
use amun.Parser.Ends.{
  Ends, Still, Lower-lt, Lower-le, Ended-strict, Ended-any, shift-Ended, stopped, ended, Ended,
  pure-Still, gets-Still, report_error-Still, undefined-Still, value-Still, if-Still, when-Still,
  choose-Still, peek_current-Still, peek_previous-Still, peek_next-Still, done-Still,
  modify_context-Still, set_ast_scope-Still, set_generic_parameters_names-Still,
  set_loop_levels-Still, set_struct_name-Still, set_unknown_fields-Still, report_warning-Still,
  bind-Still, Known,
}
use amun.Parser.Rules.{
  Guards, is_current_kind-Guards, kind_in-Guards, is_source_available-Guards, and_then-Guards,
  or_else-Guards, Still-Ends, report_error-Ends, if-Ends, choose-Ends, when-Ends, guarded-Ends,
  first-Ends, strict-Ends, rest-Ends, unmoved-Ends,
}

advanced_token-Ended : (b : Bool) (s : Parser) → Known b s → Ended b s (advanced_token s)
unfolding advanced_token report_error
advanced_token-Ended b s k =
    elim (Bool-cases (kind_eq (scan_next_token s.tokenizer).1.kind token_invalid)) [
      | inl invalid ↦ rw invalid stopped
      | inr valid ↦ rw valid (
          ended (
            shift-Ended b s (scan_next_token s.tokenizer) (scan_next_token-unscanned s.tokenizer)
              k))
    ]

-- Advancing over a token that is known not to end the file, and over any token.
pub advanced_token-Ends : (strict : Bool) (n : ℕ) → Ends true strict n advanced_token
advanced_token-Ends strict n = record {
  run = λ s k l. Ended-strict strict (advanced_token-Ended true s k);
}

pub advanced_token_any-Ends : (known : Bool) (n : ℕ) → Ends known false n advanced_token
advanced_token_any-Ends known n = record { run = λ s k l. advanced_token-Ended false s tt }

module _ {known strict : Bool} {n : ℕ} where
  pub consume_kind-Ends :
      (kind : TokenKind) (message : Bytes)
      → kind_eq token_end_of_file kind ≡ false
      → Ends known strict n (consume_kind kind message)
  unfolding consume_kind
  consume_kind-Ends kind message h =
      guarded-Ends (is_current_kind kind) _ _ (is_current_kind-Guards kind h)
        (strict-Ends advanced_token _ (advanced_token-Ends true n)
          (λ _. Still-Ends peek_previous peek_previous-Still))
        (unmoved-Ends peek_current _ peek_current-Still (λ t. report_error-Ends t.position message))

  pub assert_kind-Ends :
      (kind : TokenKind) (message : Bytes)
      → kind_eq token_end_of_file kind ≡ false
      → Ends known strict n (assert_kind kind message)
  unfolding assert_kind
  assert_kind-Ends kind message h =
      guarded-Ends (is_current_kind kind) advanced_token _ (is_current_kind-Guards kind h)
        (advanced_token-Ends strict n)
        (unmoved-Ends peek_current _ peek_current-Still (λ t.
          unmoved-Ends (if kind_eq kind token_semicolon then peek_previous else pure t) _
            (if-Still (kind_eq kind token_semicolon) peek_previous (pure t) peek_previous-Still
              (pure-Still t))
            (λ p. report_error-Ends p.position message)))

pub peek_and_advance_token-Ends :
    (strict : Bool) (n : ℕ) → Ends true strict n peek_and_advance_token
unfolding peek_and_advance_token
peek_and_advance_token-Ends strict n = unmoved-Ends peek_current _ peek_current-Still (λ t.
    strict-Ends advanced_token _ (advanced_token-Ends true n)
      (λ _. Still-Ends (pure t) (pure-Still t)))

pub peek_and_advance_token_any-Ends :
    (known : Bool) (n : ℕ) → Ends known false n peek_and_advance_token
unfolding peek_and_advance_token
peek_and_advance_token_any-Ends known n = unmoved-Ends peek_current _ peek_current-Still (λ t.
    rest-Ends advanced_token _ (advanced_token_any-Ends known n)
      (λ _. Still-Ends (pure t) (pure-Still t)))

module _ {ℓ} {A : Type ℓ} where
  pub Ends-lower :
      {known strict : Bool} {m : Parse A} {k n : ℕ}
      → k ≤ n
      → Ends known strict n m
      → Ends known strict k m
  Ends-lower l h = record { run = λ s e g. h.run s e (omega arith) }

  pub Ends-none : {known strict : Bool} {m : Parse A} → Ends known strict 0 m
  Ends-none = record { run = λ s e g. absurd (omega arith) }

module _ {ℓ} {A : Type ℓ} (test : A → Test) (round : A → Parse (Bool × A)) where
  round-Ends :
      (b : Bool) (fuel k : ℕ) (a : A)
      → Ends b true (suc k) (round a)
      → ((a : A) → Ends false false k (repeat_while fuel test round a))
      → Ends b false
          (suc k)
          (round a >>= λ r. if r.0 then repeat_while fuel test round r.1 else pure r.1)
  round-Ends b fuel k a h i = first-Ends (round a) _ h (λ r.
      if-Ends r.0 (repeat_while fuel test round r.1) (pure r.1) (i r.1)
        (Still-Ends (pure r.1) (pure-Still r.1)))

module _ {ℓ} {A : Type ℓ} (test : A → Test) (round : A → Parse (Bool × A)) {n : ℕ} where
  repeat_on :
      ((a : A) → Ends false true n (round a))
      → (fuel k : ℕ) (a : A) → k ≤ n
      → k ≤ fuel
      → Ends false false k (repeat_while fuel test round a)
  unfolding repeat_while
  repeat_on h fuel zero a l m = Ends-none
  repeat_on h zero (suc k) a l m = absurd (omega arith)
  repeat_on h (suc fuel) (suc k) a l m =
      when-Ends (test a) _ (pure a)
        (round-Ends test round false fuel k a (Ends-lower l (h a))
          (λ a. repeat_on h fuel k a (omega arith) (omega arith)))
        (Still-Ends (pure a) (pure-Still a))

  repeat_guarded_on :
      ((a : A) → Guards (test a))
      → ((a : A) → Ends true true n (round a))
      → (fuel k : ℕ) (a : A) → k ≤ n
      → k ≤ fuel
      → Ends false false k (repeat_while fuel test round a)
  unfolding repeat_while
  repeat_guarded_on g h fuel zero a l m = Ends-none
  repeat_guarded_on g h zero (suc k) a l m = absurd (omega arith)
  repeat_guarded_on g h (suc fuel) (suc k) a l m =
      guarded-Ends (test a) _ (pure a) (g a)
        (round-Ends test round true fuel k a (Ends-lower l (h a))
          (λ a. repeat_guarded_on g h fuel k a (omega arith) (omega arith)))
        (Still-Ends (pure a) (pure-Still a))

  -- A loop whose rounds read a token each has fuel enough where it has a round for each token left.
  pub repeat_while-Ends :
      (fuel : ℕ) (a : A)
      → n ≤ fuel
      → ((a : A) → Ends false true n (round a))
      → Ends false false n (repeat_while fuel test round a)
  repeat_while-Ends fuel a l h = repeat_on h fuel n a (omega arith) l

  pub repeat_while_guarded-Ends :
      (fuel : ℕ) (a : A)
      → n ≤ fuel
      → ((a : A) → Guards (test a))
      → ((a : A) → Ends true true n (round a))
      → Ends false false n (repeat_while fuel test round a)
  repeat_while_guarded-Ends fuel a l g h = repeat_guarded_on g h fuel n a (omega arith) l

module _ {ℓ} {A : Type ℓ} (test : Test) (round : A → Parse (Bool × A)) {n : ℕ} (fuel : ℕ)
    (a : A) where
  pub repeat-Ends :
      n ≤ fuel
      → ((a : A) → Ends false true n (round a))
      → Ends false false n (repeat fuel test round a)
  unfolding repeat
  repeat-Ends l h = repeat_while-Ends (λ _. test) round fuel a l h

  pub repeat_guarded-Ends :
      n ≤ fuel
      → Guards test
      → ((a : A) → Ends true true n (round a))
      → Ends false false n (repeat fuel test round a)
  unfolding repeat
  repeat_guarded-Ends l g h = repeat_while_guarded-Ends (λ _. test) round fuel a l (λ _. g) h

-- The rules in the order in which they are tried: what reads no token, then the primitives, then the
-- compositions.
pub ruleset still_rules = (
  pure-Still, gets-Still, report_error-Still, undefined-Still, value-Still, peek_current-Still,
  peek_previous-Still, peek_next-Still, done-Still, modify_context-Still, set_ast_scope-Still,
  set_generic_parameters_names-Still, set_loop_levels-Still, set_struct_name-Still,
  set_unknown_fields-Still, report_warning-Still, bind-Still, if-Still, when-Still, choose-Still,
)

pub ruleset ends_rules = (
  report_error-Ends, consume_kind-Ends, assert_kind-Ends, advanced_token-Ends,
  peek_and_advance_token-Ends, advanced_token_any-Ends, peek_and_advance_token_any-Ends,
  is_current_kind-Guards, kind_in-Guards, is_source_available-Guards, and_then-Guards,
  or_else-Guards, still_rules, unmoved-Ends, first-Ends, strict-Ends, rest-Ends, guarded-Ends,
  when-Ends, if-Ends, choose-Ends, repeat_guarded-Ends, repeat-Ends, repeat_while_guarded-Ends,
  refl, Still-Ends,
)
