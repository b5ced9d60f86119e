-- ===== src/Parser/Ends.antt =====
-- Rules for the termination of the parser of src/amun_parser.cpp: a bound on the tokens left, and how
-- the parts of a parsing function lower it.
use amun.Prelude.{
  ℕ, ◌+◌, ◌<◌, ◌≤◌, ◌≡◌, refl, ◌∙◌, Bool, true, false, Option, none, some, List, arith,
  if◌then◌else◌,
}
use amun.Prelude.Text.{Bytes}
use amun.Token.{TokenSpan, Token}
use amun.Tokenizer.{Tokenizer}
use amun.Parser.Left.{weight, tokens_left, unscanned}
use amun.Parser.{
  Parser, Outcome, ok, stop, no_fuel, crash, Parse, pure, done, ◌>>=◌, gets, value, undefined,
  report_error, report_warning, continue_with, Context, AstNodeScope, modify_context, set_ast_scope,
  set_generic_parameters_names, set_loop_levels, set_struct_name, set_unknown_fields,
}
use amun.Parser.Reading.{peek_current, peek_previous, peek_next, when, branch, Test, shift, choose}

-- The current token is known not to end the file.
abbrev pub Known : Bool → Parser → Type 0
Known true s = weight s.current_token ≡ 1
Known false s = Unit

abbrev pub Lower : Bool → ℕ → ℕ → Type 0
Lower true m n = m < n
Lower false m n = m ≤ n

-- An outcome with its fuel left, and a state with no more tokens left; with fewer where `strict` says so.
pub data Ended {ℓ} {A : Type ℓ} (strict : Bool) (s : Parser) : Outcome A → Type ℓ where
  ended :
      {a : A} {t : Parser} → Lower strict (tokens_left t) (tokens_left s) → Ended strict s (ok a t)
  stopped : {t : Parser} → Ended strict s (stop t)
  crashed : Ended strict s crash

-- From a state with fewer than `n` tokens left the function ends.
pub record Ends {ℓ} {A : Type ℓ} (known strict : Bool) (n : ℕ) (m : Parse A) : Type ℓ where
  pub run : (s : Parser) → Known known s → tokens_left s < n → Ended strict s (m s)

pub shift-Ended :
    (b : Bool) (s : Parser) (r : Tokenizer × Token)
    → unscanned r.0 + weight (some r.1) ≤ unscanned s.tokenizer
    → Known b s
    → Lower b (tokens_left (shift s r)) (tokens_left s)
shift-Ended true s r h k = omega arith
shift-Ended false s r h k = omega arith

pub Lower-lt : (b : Bool) {m n : ℕ} → m < n → Lower b m n
Lower-lt true h = h
Lower-lt false h = omega arith

pub Lower-le : (b : Bool) {m n : ℕ} → Lower b m n → m ≤ n
Lower-le true h = omega arith
Lower-le false h = h

pub Ended-strict {ℓ} :
    (b : Bool) {A : Type ℓ} {s : Parser} {o : Outcome A} → Ended true s o → Ended b s o
Ended-strict b (ended h) = ended (Lower-lt b h)
Ended-strict b stopped = stopped
Ended-strict b crashed = crashed

pub Ended-any {ℓ} :
    (b : Bool) {A : Type ℓ} {s : Parser} {o : Outcome A} → Ended b s o → Ended false s o
Ended-any b (ended h) = ended (Lower-le b h)
Ended-any b stopped = stopped
Ended-any b crashed = crashed

-- A function that reads no token.
pub data Kept {ℓ} {A : Type ℓ} (s : Parser) : Outcome A → Type ℓ where
  kept :
      {a : A} {t : Parser}
      → tokens_left t ≡ tokens_left s
      → weight t.current_token ≡ weight s.current_token
      → Kept s (ok a t)
  stopped : {t : Parser} → Kept s (stop t)
  crashed : Kept s crash

pub record Still {ℓ} {A : Type ℓ} (m : Parse A) : Type ℓ where
  pub keeps : (s : Parser) → Kept s (m s)

module _ {ℓ} {A : Type ℓ} where
  pub pure-Still : (a : A) → Still (pure a)
  unfolding pure
  pure-Still a = record { keeps = λ s. kept refl refl }

  pub gets-Still : (f : Parser → A) → Still (gets f)
  unfolding gets
  gets-Still f = record { keeps = λ s. kept refl refl }

  pub report_error-Still :
      (position : TokenSpan) (message : Bytes) → Still (report_error {A = A} position message)
  unfolding report_error
  report_error-Still position message = record { keeps = λ s. stopped }

  pub undefined-Still : Still (undefined {A = A})
  unfolding undefined
  undefined-Still = record { keeps = λ s. crashed }

  pub value-Still : (o : Option A) → Still (value o)
  unfolding value
  value-Still (some a) = record { keeps = λ s. kept refl refl }
  value-Still none = record { keeps = λ s. crashed }

  if-Kept :
      (c : Bool) {s : Parser} {x y : Outcome A} → Kept s x → Kept s y → Kept s (if c then x else y)
  if-Kept true h k = h
  if-Kept false h k = k

  pub if-Still : (c : Bool) (m k : Parse A) → Still m → Still k → Still (if c then m else k)
  if-Still true m k h i = h
  if-Still false m k h i = i

  branch-Kept :
      (test : Test) {m k : Parse A} (o : Option Token) (s : Parser)
      → Still m
      → Still k
      → Kept s (branch test m k o s)
  branch-Kept test (some token) s h k = if-Kept (test s token) (h.keeps s) (k.keeps s)
  branch-Kept test none s h k = crashed

  pub when-Still : (test : Test) (m k : Parse A) → Still m → Still k → Still (when test m k)
  unfolding when
  when-Still test m k h i = record { keeps = λ s. branch-Kept test s.current_token s h i }

module _ {ℓ κ} {A : Type ℓ} {B : Type κ} where
  pub choose-Still :
      (o : Option A) (f : A → Parse B) (m : Parse B)
      → ((a : A) → Still (f a))
      → Still m
      → Still (choose o f m)
  unfolding choose
  choose-Still (some a) f m h k = h a
  choose-Still none f m h k = k

pub peek_current-Still : Still peek_current
unfolding peek_current
peek_current-Still = record { keeps = λ s. (value-Still s.current_token).keeps s }

pub peek_previous-Still : Still peek_previous
unfolding peek_previous
peek_previous-Still = record { keeps = λ s. (value-Still s.previous_token).keeps s }

pub peek_next-Still : Still peek_next
unfolding peek_next
peek_next-Still = record { keeps = λ s. (value-Still s.next_token).keeps s }

pub done-Still : Still done
unfolding done
done-Still = record { keeps = λ s. kept refl refl }

pub modify_context-Still : (f : Context → Context) → Still (modify_context f)
unfolding modify_context
modify_context-Still f = record { keeps = λ s. kept refl refl }

pub set_ast_scope-Still : (x : AstNodeScope) → Still (set_ast_scope x)
unfolding set_ast_scope
set_ast_scope-Still x = record { keeps = λ s. kept refl refl }

pub set_generic_parameters_names-Still : (x : List Bytes) → Still (set_generic_parameters_names x)
unfolding set_generic_parameters_names
set_generic_parameters_names-Still x = record { keeps = λ s. kept refl refl }

pub set_loop_levels-Still : (x : List ℕ) → Still (set_loop_levels x)
unfolding set_loop_levels
set_loop_levels-Still x = record { keeps = λ s. kept refl refl }

pub set_struct_name-Still : (x : Bytes) → Still (set_struct_name x)
unfolding set_struct_name
set_struct_name-Still x = record { keeps = λ s. kept refl refl }

pub set_unknown_fields-Still : (x : ℕ) → Still (set_unknown_fields x)
unfolding set_unknown_fields
set_unknown_fields-Still x = record { keeps = λ s. kept refl refl }

pub report_warning-Still :
    (position : TokenSpan) (message : Bytes) → Still (report_warning position message)
unfolding report_warning
report_warning-Still position message = modify_context-Still _

module _ {ℓ κ} {A : Type ℓ} {B : Type κ} (m : Parse A) (k : A → Parse B) where
  bind-Kept :
      (s : Parser) (o : Outcome A) → Kept s o → ((a : A) → Still (k a)) → Kept s (continue_with k o)
  bind-Kept s (ok a t) (kept e f) r = trans-Kept ((r a).keeps t)
    where
      trans-Kept : {o : Outcome B} → Kept t o → Kept s o
      trans-Kept (kept g h) = kept (g ∙ e) (h ∙ f)
      trans-Kept stopped = stopped
      trans-Kept crashed = crashed
  bind-Kept s (stop t) h r = stopped
  bind-Kept s crash h r = crashed
  bind-Kept s no_fuel h r = elim h [ ]

  pub bind-Still : Still m → ((a : A) → Still (k a)) → Still (m >>= k)
  unfolding ◌>>=◌
  bind-Still h r = record { keeps = λ s. bind-Kept s (m s) (h.keeps s) r }
