-- ===== src/Parser/Rules.antt =====
-- How the parts of a parsing function of src/amun_parser.cpp make it end: one rule for each way to
-- compose them, in a set for `search`.
use amun.Prelude.{
  ℕ, suc, ◌<◌, ◌≤◌, ◌≡◌, refl, ap, Bool, true, false, inl, inr, Option, none, some, arith,
  if◌then◌else◌, Bool-cases,
}
use amun.Prelude.Text.{Bytes}
use amun.Token.{TokenKind, TokenSpan, Token, kind_eq, token_end_of_file}
use amun.Token.Laws.{kind_eq_iff}
use amun.Parser.{
  Parser, Outcome, ok, stop, no_fuel, crash, Parse, ◌>>=◌, report_error, continue_with,
}
use amun.Parser.Reading.{
  when, branch, Test, choose, is_current_kind, kind_in, is_source_available, ◌and_then◌, ◌or_else◌,
}
use amun.Parser.Left.{weight, tokens_left}
use amun.Parser.Ends.{Ended, Ends, Kept, Still, Known, Lower, kept, stopped, crashed, ended}

-- A test that the end of the file does not pass.
pub record Guards (test : Test) : Type 0 where
  pub inside : (s : Parser) (t : Token) → test s t ≡ true → weight (some t) ≡ 1

pub is_current_kind-Guards :
    (kind : TokenKind) → kind_eq token_end_of_file kind ≡ false → Guards (is_current_kind kind)
unfolding is_current_kind weight
is_current_kind-Guards kind h = record { inside = λ s t e. ground arith }

pub kind_in-Guards : (p : TokenKind → Bool) → p token_end_of_file ≡ false → Guards (kind_in p)
unfolding kind_in weight
kind_in-Guards p h = record {
  inside = λ s t e. elim (Bool-cases (kind_eq t.kind token_end_of_file)) [
    | inl same ↦ ground (arith, ap p ((kind_eq_iff t.kind token_end_of_file).0 same))
    | inr other ↦ rw other refl
  ];
}

pub is_source_available-Guards : Guards is_source_available
unfolding is_source_available weight
is_source_available-Guards = record { inside = λ s t e. ground arith }

pub and_then-Guards : (p q : Test) → Guards p → Guards (p and_then q)
unfolding ◌and_then◌
and_then-Guards p q g = record { inside = λ s t e. g.inside s t (ground arith) }

pub or_else-Guards : (p q : Test) → Guards p → Guards q → Guards (p or_else q)
unfolding ◌or_else◌
or_else-Guards p q g h = record {
  inside = λ s t e. elim (Bool-cases (p s t)) [
    | inl hit ↦ g.inside s t hit
    | inr miss ↦ h.inside s t (ground arith)
  ];
}

kept-Ended {ℓ} : {A : Type ℓ} {s : Parser} {o : Outcome A} → Kept s o → Ended false s o
kept-Ended (kept e f) = ended (omega arith)
kept-Ended stopped = stopped
kept-Ended crashed = crashed

pub Still-Ends {ℓ} :
    {A : Type ℓ} {known : Bool} {n : ℕ} (m : Parse A) → Still m → Ends known false n m
Still-Ends m h = record { run = λ s k l. kept-Ended (h.keeps s) }

module _ {ℓ} {A : Type ℓ} {strict : Bool} where
  branch-Ended :
      (test : Test) (m k : Parse A) (o : Option Token) (s : Parser)
      → ((t : Token) → o ≡ some t → test s t ≡ true → Ended strict s (m s))
      → Ended strict s (k s)
      → Ended strict s (branch test m k o s)
  branch-Ended test m k (some t) s h i = elim (Bool-cases (test s t)) [
    | inl hit ↦ rw hit (h t refl hit)
    | inr miss ↦ rw miss i
  ]
  branch-Ended test m k none s h i = crashed

module _ {ℓ} {A : Type ℓ} {known strict : Bool} {n : ℕ} where
  pub report_error-Ends :
      (position : TokenSpan) (message : Bytes)
      → Ends known strict n (report_error {A = A} position message)
  unfolding report_error
  report_error-Ends position message = record { run = λ s k l. stopped }

  pub if-Ends :
      (c : Bool) (m k : Parse A)
      → Ends known strict n m
      → Ends known strict n k
      → Ends known strict n (if c then m else k)
  if-Ends true m k h i = h
  if-Ends false m k h i = i

  pub choose-Ends {κ} :
      {B : Type κ} (o : Option B) (f : B → Parse A) (m : Parse A)
      → ((b : B) → Ends known strict n (f b))
      → Ends known strict n m
      → Ends known strict n (choose o f m)
  unfolding choose
  choose-Ends (some b) f m h k = h b
  choose-Ends none f m h k = k

  pub when-Ends :
      (test : Test) (m k : Parse A)
      → Ends known strict n m
      → Ends known strict n k
      → Ends known strict n (when test m k)
  unfolding when
  when-Ends test m k h i = record {
    run = λ s e l. branch-Ended test m k s.current_token s (λ t p q. h.run s e l) (i.run s e l);
  }

  pub guarded-Ends :
      (test : Test) (m k : Parse A)
      → Guards test
      → Ends true strict n m
      → Ends known strict n k
      → Ends known strict n (when test m k)
  unfolding when
  guarded-Ends test m k g h i = record {
    run = λ s e l.
        branch-Ended test m k s.current_token s (λ t p hit. h.run s (rw p (g.inside s t hit)) l)
          (i.run s e l);
  }

module _ {ℓ κ} {A : Type ℓ} {B : Type κ} {strict : Bool} (k : A → Parse B) where
  -- What follows an outcome, from the state that it leaves.
  continue-Ended :
      (b : Bool) (s : Parser) (o : Outcome A)
      → Ended b s o
      → ((a : A) (t : Parser) → Lower b (tokens_left t) (tokens_left s) → Ended strict s (k a t))
      → Ended strict s (continue_with k o)
  continue-Ended b s (ok a t) (ended h) r = r a t h
  continue-Ended b s (stop t) h r = stopped
  continue-Ended b s crash h r = crashed
  continue-Ended b s no_fuel h r = elim h [ ]

pub onwards {ℓ} :
    {A : Type ℓ} (b : Bool) {s t : Parser} {o : Outcome A}
    → tokens_left t ≤ tokens_left s
    → Ended b t o
    → Ended b s o
onwards true l (ended h) = ended (omega arith)
onwards false l (ended h) = ended (omega arith)
onwards b l stopped = stopped
onwards b l crashed = crashed

pub lowered {ℓ} :
    {A : Type ℓ} (b : Bool) {s t : Parser} {o : Outcome A}
    → tokens_left t < tokens_left s
    → Ended false t o
    → Ended b s o
lowered true l (ended h) = ended (omega arith)
lowered false l (ended h) = ended (omega arith)
lowered b l stopped = stopped
lowered b l crashed = crashed

module _ {ℓ κ} {A : Type ℓ} {B : Type κ} {known : Bool} {n : ℕ} (m : Parse A)
    (k : A → Parse B) where
  -- Behind a part that reads a token, the rest has one token less.
  pub first-Ends :
      {strict : Bool}
      → Ends known true (suc n) m
      → ((a : A) → Ends false false n (k a))
      → Ends known strict (suc n) (m >>= k)
  unfolding ◌>>=◌
  first-Ends {strict} h r = record {
    run = λ s e l.
        continue-Ended k true s (m s) (h.run s e l)
          (λ a t g. lowered strict g ((r a).run t tt (omega arith)));
  }

  pub strict-Ends :
      {strict : Bool}
      → Ends known true n m
      → ((a : A) → Ends false false n (k a))
      → Ends known strict n (m >>= k)
  unfolding ◌>>=◌
  strict-Ends {strict} h r = record {
    run = λ s e l.
        continue-Ended k true s (m s) (h.run s e l)
          (λ a t g. lowered strict g ((r a).run t tt (omega arith)));
  }

  pub rest-Ends :
      {strict : Bool}
      → Ends known false n m
      → ((a : A) → Ends false strict n (k a))
      → Ends known strict n (m >>= k)
  unfolding ◌>>=◌
  rest-Ends {strict} h r = record {
    run = λ s e l.
        continue-Ended k false s (m s) (h.run s e l)
          (λ a t g. onwards strict g ((r a).run t tt (omega arith)));
  }

Known-same :
    (b : Bool) (s t : Parser)
    → weight t.current_token ≡ weight s.current_token
    → Known b s
    → Known b t
Known-same true s t e h = omega arith
Known-same false s t e h = tt

module _ {ℓ κ} {A : Type ℓ} {B : Type κ} {known strict : Bool} {n : ℕ} where
  continue-Kept :
      (k : A → Parse B) (s : Parser) (o : Outcome A)
      → Kept s o
      → Known known s
      → tokens_left s < n
      → ((a : A) → Ends known strict n (k a))
      → Ended strict s (continue_with k o)
  continue-Kept k s (ok a t) (kept e f) h l r =
      onwards strict (omega arith) ((r a).run t (Known-same known s t f h) (omega arith))
  continue-Kept k s (stop t) h i l r = stopped
  continue-Kept k s crash h i l r = crashed
  continue-Kept k s no_fuel h i l r = elim h [ ]

  -- A part that reads no token leaves what is known.
  pub unmoved-Ends :
      (m : Parse A) (k : A → Parse B)
      → Still m
      → ((a : A) → Ends known strict n (k a))
      → Ends known strict n (m >>= k)
  unfolding ◌>>=◌
  unmoved-Ends m k h r = record { run = λ s e l. continue-Kept k s (m s) (h.keeps s) e l r }

-- A bound that is higher than what is wanted.
pub lower-Ends {ℓ} :
    {A : Type ℓ} {known strict : Bool} {n : ℕ} (m : Parse A)
    → Ends known strict (suc n) m
    → Ends known strict n m
lower-Ends m h = record { run = λ s e l. h.run s e (omega arith) }

-- What is known is not needed.
pub forget-Ends {ℓ} :
    {A : Type ℓ} (known : Bool) {strict : Bool} {n : ℕ} (m : Parse A)
    → Ends false strict n m
    → Ends known strict n m
forget-Ends known m h = record { run = λ s e l. h.run s tt l }
