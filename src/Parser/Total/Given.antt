-- ===== src/Parser/Total/Given.antt =====
-- Loops of the parser of src/amun_parser.cpp whose rounds end only while a condition on their variables
-- holds: what a function gives where it gives a result, and loops that keep such a condition.
use amun.Prelude.{
  ℕ, zero, suc, ◌≤◌, ◌≡◌, refl, sym, ap, subst, ◌∙◌, Bool, true, false, arith, if◌then◌else◌,
  Option, some, none, Bool-cases, inl, inr,
}
use amun.Prelude.Text.{Bytes}
use amun.Token.{Token, TokenSpan}
use amun.Parser.{
  Parser, Parse, Outcome, ok, stop, no_fuel, crash, pure, ◌>>=◌, continue_with, report_error,
  out_of_fuel,
}
use amun.Parser.Reading.{Test, when, branch, repeat, repeat_while}
use amun.Parser.Left.{tokens_left}
use amun.Parser.Ends.{Ends, Ended, ended, stopped, crashed, Lower, pure-Still}
use amun.Parser.Rules.{Guards, lowered, guarded-Ends, Still-Ends}
use amun.Parser.Leaves.{Ends-lower, Ends-none}
use amun.Parser.Chains.{bind-Parts, ok-injective}

-- Each result of the function is in `Q`.
pub record Gives {A : Type 0} (Q : A → Type 0) (m : Parse A) : Type 0 where
  pub result : (s : Parser) {a : A} {t : Parser} → m s ≡ ok a t → Q a

pub any-Gives : {A : Type 0} (m : Parse A) → Gives (λ _. Unit) m
any-Gives m = record { result = λ s h. tt }

pub pure-Gives : {A : Type 0} (Q : A → Type 0) (a : A) → Q a → Gives Q (pure a)
unfolding pure
pure-Gives Q a q = record { result = λ s h. subst Q (ok-injective h).0 q }

pub report_error-Gives :
    {A : Type 0} (Q : A → Type 0) (position : TokenSpan) (message : Bytes)
    → Gives Q (report_error position message)
unfolding report_error
report_error-Gives Q position message = record { result = λ s h. absurd (cc h) }

pub bind-Gives :
    {A B : Type 0} (P : A → Type 0) (Q : B → Type 0) (m : Parse A) (k : A → Parse B)
    → Gives P m
    → ((a : A) → P a → Gives Q (k a))
    → Gives Q (m >>= k)
bind-Gives P Q m k g h = record {
  result =
      λ s e. let p = bind-Parts m k s e in (h p.value (g.result s p.ran)).result p.state p.went;
}

pub if-Gives :
    {A : Type 0} (Q : A → Type 0) (c : Bool) (m k : Parse A)
    → Gives Q m
    → Gives Q k
    → Gives Q (if c then m else k)
if-Gives Q true m k g h = g
if-Gives Q false m k g h = h

branch-result :
    {A : Type 0} (Q : A → Type 0) (test : Test) (m k : Parse A) (o : Option Token)
    → Gives Q m
    → Gives Q k
    → (s : Parser) {a : A} {t : Parser} → branch test m k o s ≡ ok a t
    → Q a
branch-result Q test m k none g h s e = absurd (cc e)
branch-result Q test m k (some token) g h s e = elim (Bool-cases (test s token)) [
  | inl p ↦ g.result s (ap (λ b. if b then m s else k s) (sym p) ∙ e)
  | inr p ↦ h.result s (ap (λ b. if b then m s else k s) (sym p) ∙ e)
]

pub when-Gives :
    {A : Type 0} (Q : A → Type 0) (test : Test) (m k : Parse A)
    → Gives Q m
    → Gives Q k
    → Gives Q (when test m k)
unfolding when
when-Gives Q test m k g h = record {
  result = λ s e. branch-result Q test m k s.current_token g h s e;
}

module _ {A B : Type 0} (Q : A → Type 0) {strict : Bool} (k : A → Parse B) where
  continue-given :
      (b : Bool) (s : Parser) (o : Outcome A)
      → Ended b s o
      → ((a : A) (t : Parser) → o ≡ ok a t → Q a)
      → ((a : A) (t : Parser)
          → Q a
          → Lower b (tokens_left t) (tokens_left s)
          → Ended strict s (k a t))
      → Ended strict s (continue_with k o)
  continue-given b s (ok a t) (ended h) g r = r a t (g a t refl) h
  continue-given b s (stop t) h g r = stopped
  continue-given b s crash h g r = crashed
  continue-given b s no_fuel h g r = elim h [ ]

-- Behind a part that reads a token and gives a result in `Q`, the rest has one token less.
pub first_given-Ends :
    {A B : Type 0} {known strict : Bool} {n : ℕ} (Q : A → Type 0) (m : Parse A) (k : A → Parse B)
    → Ends known true (suc n) m
    → Gives Q m
    → ((a : A) → Q a → Ends false false n (k a))
    → Ends known strict (suc n) (m >>= k)
unfolding ◌>>=◌
first_given-Ends {strict = strict} Q m k h g r = record {
  run = λ s e l.
      continue-given Q k true s (m s) (h.run s e l) (λ a t. g.result s)
        (λ a t q i. lowered strict i ((r a q).run t tt (omega arith)));
}

-- A loop whose rounds keep `Q` of its variables, and read a token while it holds.
module _ {A : Type 0} (Q : A → Type 0) (test : Test) (round : A → Parse (Bool × A)) where
  Keeps : Type 0
  Keeps = (a : A) → Q a → Gives (λ r. Q r.1) (round a)

  repeat_while-Gives :
      Keeps → (fuel : ℕ) (a : A) → Q a → Gives Q (repeat_while fuel (λ _. test) round a)
  unfolding repeat_while out_of_fuel Keeps
  repeat_while-Gives h zero a q = record { result = λ s e. absurd (cc e) }
  repeat_while-Gives h (suc fuel) a q =
      when-Gives Q test _ (pure a)
        (bind-Gives (λ r. Q r.1) Q (round a) _ (h a q)
          (λ r p.
            if-Gives Q r.0 (repeat_while fuel (λ _. test) round r.1) (pure r.1)
              (repeat_while-Gives h fuel r.1 p) (pure-Gives Q r.1 p)))
        (pure-Gives Q a q)

  pub repeat-Gives :
      (fuel : ℕ) (a : A)
      → ((a : A) → Q a → Gives (λ r. Q r.1) (round a))
      → Q a
      → Gives Q (repeat fuel test round a)
  unfolding repeat Keeps
  repeat-Gives fuel a h q = repeat_while-Gives h fuel a q

  given_on :
      {n : ℕ}
      → Guards test
      → ((a : A) → Q a → Ends true true n (round a))
      → Keeps
      → (fuel k : ℕ) (a : A) → Q a
      → k ≤ n
      → k ≤ fuel
      → Ends false false k (repeat_while fuel (λ _. test) round a)
  unfolding repeat_while Keeps
  given_on g h p fuel zero a q l m = Ends-none
  given_on g h p zero (suc k) a q l m = absurd (omega arith)
  given_on g h p (suc fuel) (suc k) a q l m =
      guarded-Ends test _ (pure a) g
        (first_given-Ends (λ r. Q r.1) (round a) _ (Ends-lower l (h a q)) (p a q)
          (λ r i. go_on r.0 r.1 (given_on g h p fuel k r.1 i (omega arith) (omega arith))))
        (Still-Ends (pure a) (pure-Still a))
    where
      go_on :
          (b : Bool) (a : A)
          → Ends false false k (repeat_while fuel (λ _. test) round a)
          → Ends false false k (if b then repeat_while fuel (λ _. test) round a else pure a)
      go_on true a h = h
      go_on false a h = Still-Ends (pure a) (pure-Still a)

  pub repeat_given-Ends :
      {n : ℕ} (fuel : ℕ) (a : A)
      → n ≤ fuel
      → Guards test
      → Q a
      → ((a : A) → Q a → Ends true true n (round a))
      → ((a : A) → Q a → Gives (λ r. Q r.1) (round a))
      → Ends false false n (repeat fuel test round a)
  unfolding repeat Keeps
  repeat_given-Ends {n} fuel a l g q h p = given_on g h p fuel n a q (omega arith) l
