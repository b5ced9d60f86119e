-- ===== src/Parser/Total/Unit.antt =====
-- The parser of src/amun_parser.cpp ends: its recursion and its loops have fuel enough where there is one
-- unit more than the bytes of the source and its first two tokens.
use amun.Prelude.{ℕ, zero, suc, ◌+◌, ◌<◌, ◌≡◌, ◌≢◌, Bool, true, false, arith, length}
use amun.Prelude.Text.{Bytes}
use amun.Tokenizer
use amun.Parser.{Parser, Parse, Context, Outcome, no_fuel, new}
use amun.Parser.Left.{tokens_left, weight}
use amun.Parser.Ends.{Ends, Ended, ended, stopped, crashed}
use amun.Parser.Unit.{calls}
use amun.Parser.Total.Types.{CallsEnd, parse_type-Ends, parse_type_with_prefix-Ends}
use amun.Parser.Total.Postfix.{parse_prefix_expression-Ends, parse_infix_call_expression-Ends}
use amun.Parser.Total.Levels.{parse_assignment_expression-Ends, parse_expression-Ends}
use amun.Parser.Total.Control.{parse_statement-Ends}

Ends-zero {ℓ} : {A : Type ℓ} (known strict : Bool) (m : Parse A) → Ends known strict 0 m
Ends-zero known strict m = record { run = λ s e l. absurd (omega arith) }

-- With so much fuel, the recursive calls end where fewer tokens are left.
pub calls-CallsEnd : (n : ℕ) → CallsEnd n (calls n)
unfolding calls
calls-CallsEnd zero = record {
  rounds = omega arith;
  type = λ k s. Ends-zero k s _;
  type_with_prefix = λ k s. Ends-zero k s _;
  expression = λ k s. Ends-zero k s _;
  assignment = λ k s. Ends-zero k s _;
  infix_call = λ k s. Ends-zero k s _;
  prefix = λ k s. Ends-zero k s _;
  statement = λ k s. Ends-zero k s _;
}
calls-CallsEnd (suc n) =
    let ends = calls-CallsEnd n in
    record {
      rounds = omega arith;
      type = parse_type-Ends (calls n) ends;
      type_with_prefix = parse_type_with_prefix-Ends (calls n) ends;
      expression = parse_expression-Ends (calls n) ends;
      assignment = parse_assignment_expression-Ends (calls n) ends;
      infix_call = parse_infix_call_expression-Ends (calls n) ends;
      prefix = parse_prefix_expression-Ends (calls n) ends;
      statement = parse_statement-Ends (calls n) ends;
    }

pub Ended-fuel {ℓ} :
    {A : Type ℓ} {b : Bool} {s : Parser} {o : Outcome A} → Ended b s o → o ≢ no_fuel
Ended-fuel (ended h) e = cc e
Ended-fuel stopped e = cc e
Ended-fuel crashed e = cc e

pub tokens_left-new :
    (context : Context) (file : ℕ) (source : Bytes)
    → tokens_left (new context (Tokenizer.new file source)) ≡ length source + 2
unfolding new Tokenizer.new weight
tokens_left-new context file source = omega arith

-- From every state, with more fuel than it has tokens left, parsing an expression does not run out of
-- fuel, and where it gives an expression it has read a token at least.
pub parse_expression-ends :
    (s : Parser) (n : ℕ) → tokens_left s < n → Ended true s ((calls n).parse_expression s)
parse_expression-ends s n h = ((calls-CallsEnd n).expression false true).run s tt h

-- From every state, with more fuel than it has tokens left, parsing a statement, with all the loops and
-- nested statements in it, does not run out of fuel, and where it gives a statement it has read a token
-- at least.
pub parse_statement-ends :
    (s : Parser) (n : ℕ) → tokens_left s < n → Ended true s ((calls n).parse_statement s)
parse_statement-ends s n h = ((calls-CallsEnd n).statement false true).run s tt h
