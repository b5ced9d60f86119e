-- ===== src/Parser/Chains.antt =====
-- What the loops of src/amun_parser.cpp over binary operators read: a chain of operands, nested to the left.
use amun.Prelude.{ℕ, zero, suc, ◌≡◌, refl, Bool, true, false, Option, some, none, if◌then◌else◌}
use amun.Token.{Token}
use amun.Ast.{Expression}
use amun.Parser.{
  Parser, Parse, Outcome, ok, stop, no_fuel, crash, pure, ◌>>=◌, continue_with, out_of_fuel,
}
use amun.Parser.Reading.{Test, peek_and_advance_token, when, branch, repeat, repeat_while, again}
use amun.Parser.Calls.{Calls}
use amun.Parser.Levels.{Combine, parse_operators}

-- The test of the current token, where there is one.
abbrev pub passes : Test → Parser → Option Token → Bool
passes test s none = false
passes test s (some token) = test s token

-- `Chain s e t`: from the state `s` on there stand operands with operators between them, up to the state
-- `t`, and `e` combines them from the left.
pub data Chain (test : Test) (combine : Combine) (operand : Parse Expression) (s : Parser)
    : Expression → Parser → Type 0 where
  first : {e : Expression} {t : Parser} → operand s ≡ ok e t → Chain test combine operand s e t
  next :
      {e op right : _} {t u v : Parser}
      → Chain test combine operand s e t
      → passes test t t.current_token ≡ true
      → peek_and_advance_token t ≡ ok op u
      → operand u ≡ ok right v
      → Chain test combine operand s (combine e op right) v

-- A composition that gives a result: its first part does, and so does what follows.
pub record Parts {A B : Type 0} (m : Parse A) (k : A → Parse B) (s : Parser) (b : B) (u : Parser)
    : Type 0 where
  pub value : A
  pub state : Parser
  pub ran : m s ≡ ok value state
  pub went : k value state ≡ ok b u

continue-Parts :
    {A B : Type 0} (m : Parse A) (k : A → Parse B) (s : Parser) {b : B} {u : Parser} (o : Outcome A)
    → m s ≡ o
    → continue_with k o ≡ ok b u
    → Parts m k s b u
continue-Parts m k s (ok a t) e h = record { value = a; state = t; ran = e; went = h }
continue-Parts m k s (stop t) e h = absurd (cc h)
continue-Parts m k s no_fuel e h = absurd (cc h)
continue-Parts m k s crash e h = absurd (cc h)

pub bind-Parts :
    {A B : Type 0} (m : Parse A) (k : A → Parse B) (s : Parser) {b : B} {u : Parser}
    → (m >>= k) s ≡ ok b u
    → Parts m k s b u
unfolding ◌>>=◌
bind-Parts m k s h = continue-Parts m k s (m s) refl h

pub ok-injective {ℓ} : {A : Type ℓ} {a b : A} {s t : Parser} → ok a s ≡ ok b t → (a ≡ b) × (s ≡ t)
ok-injective h = (cc h, cc h)

module _ (test : Test) (combine : Combine) (operand : Parse Expression) (s : Parser) where
  record EndedChain (e : Expression) (t : Parser) : Type 0 where
    chain : Chain test combine operand s e t
    last : passes test t t.current_token ≡ false

  round : Expression → Parse (Bool × Expression)
  round e = peek_and_advance_token >>= λ op. operand >>= λ right. again (combine e op right)

  Rounds : ℕ → Expression → Parser → Type 0
  Rounds fuel f u =
      (e : Expression) (t : Parser)
      → Chain test combine operand s e t
      → repeat_while fuel (λ _. test) round e t ≡ ok f u
      → EndedChain f u

  go_on : ℕ → Bool × Expression → Parse Expression
  go_on fuel r = if r.0 then repeat_while fuel (λ _. test) round r.1 else pure r.1

  go_on-same :
      (fuel : ℕ) (r r' : Bool × Expression) (v v' : Parser) (o : Outcome Expression)
      → r ≡ r'
      → v ≡ v'
      → go_on fuel r' v' ≡ o
      → go_on fuel r v ≡ o
  go_on-same fuel r r' v v' o a b h = rw (a, b) h

  EndedChain-same :
      (e f : Expression) (t u : Parser) → e ≡ f → t ≡ u → EndedChain e t → EndedChain f u
  EndedChain-same e f t u a b h = rw (← a, ← b) h

  -- A round reads one operator and one operand.
  round-Chain :
      (fuel : ℕ) (e : Expression) (t : Parser) {f : Expression} {u : Parser}
      → Chain test combine operand s e t
      → passes test t t.current_token ≡ true
      → (round e >>= go_on fuel) t ≡ ok f u
      → Rounds fuel f u
      → EndedChain f u
  unfolding pure round Rounds go_on
  round-Chain fuel e t {f} {u} c hit h rest =
      let p = bind-Parts (round e) _ t h in
      let q = bind-Parts peek_and_advance_token _ t p.ran in
      let r = bind-Parts operand _ q.state q.went in
      let x = ok-injective r.went in
      rest (combine e q.value r.value) r.state (next c hit q.ran r.ran)
        (go_on-same fuel _ p.value r.state p.state (ok f u) x.0 x.1 p.went)

  branch-Chain :
      (fuel : ℕ) (e : Expression) (t : Parser) {f : Expression} {u : Parser} (b : Bool)
      → Chain test combine operand s e t
      → passes test t t.current_token ≡ b
      → (if b then (round e >>= go_on fuel) t else pure e t) ≡ ok f u
      → Rounds fuel f u
      → EndedChain f u
  unfolding pure
  branch-Chain fuel e t true c hit h rest = round-Chain fuel e t c hit h rest
  branch-Chain fuel e t {f} {u} false c miss h rest =
      let x = ok-injective h in EndedChain-same e f t u x.0 x.1 (record { chain = c; last = miss })

  token-Chain :
      (fuel : ℕ) (e : Expression) (t : Parser) {f : Expression} {u : Parser} (o : Option Token)
      → Chain test combine operand s e t
      → t.current_token ≡ o
      → branch test (round e >>= go_on fuel) (pure e) o t ≡ ok f u
      → Rounds fuel f u
      → EndedChain f u
  token-Chain fuel e t none c p h rest = absurd (cc h)
  token-Chain fuel e t (some token) c p h rest =
      branch-Chain fuel e t (test t token) c (rw p refl) h rest

  loop-Chain : (fuel : ℕ) (f : Expression) (u : Parser) → Rounds fuel f u
  unfolding repeat_while out_of_fuel when Rounds go_on
  loop-Chain zero f u e t c h = absurd (cc h)
  loop-Chain (suc fuel) f u e t c h =
      token-Chain fuel e t t.current_token c refl h (loop-Chain fuel f u)

-- The loop over the operators of a level, that of every level but the shifts and the assignments, reads
-- a whole chain and nests it to the left: an expression that it gives is the combination of a chain of
-- operands from the state on, and the token behind the chain is none of the level's operators.
pub parse_operators-Chain :
    (call : Calls) (test : Test) (combine : Combine) (operand : Parse Expression) (s : Parser)
    {e : Expression} {t : Parser}
    → parse_operators call test combine operand s ≡ ok e t
    → Chain test combine operand s e t × (passes test t t.current_token ≡ false)
unfolding parse_operators repeat round Rounds
parse_operators-Chain call test combine operand s {e} {t} h =
    let p = bind-Parts operand _ s h in
    let c =
      loop-Chain test combine operand s call.rounds e t p.value p.state (first p.ran) p.went in
    (c.chain, c.last)
