-- ===== src/Parser/Laws.antt =====
-- `break` and `continue` of src/amun_parser.cpp: where they are accepted, and with which numbers.
use amun.Prelude.{
  ℕ, ◌≡◌, ◌<◌, ◌≤◌, ◌↔◌, refl, Bool, true, false, if◌then◌else◌, List, ◌∷◌, Option, some, none, ℤ,
  pos, Bool-cases, inl, inr, ap, sym, ◌∙◌,
}
use amun.Prelude.Text.{Bytes, codes}
use amun.Token.{Token, kind_eq, token_semicolon}
use amun.Token.Operators.{is_float_number_token}
use amun.Types.{AmunType}
use amun.Ast.{Statement, Expression, number_expression}
use amun.Parser.{Parser, Parse, ok, report_error, value, pure, ◌>>=◌}
use amun.Parser.Reading.{Test, when, branch, choose, is_current_kind, assert_kind}
use amun.Parser.Checks.{as_number, number_of}
use amun.Parser.Calls.{Calls}
use amun.Parser.Breaks.{check_inside_loop, check_times, TimesMessages, parse_times}
use amun.Parser.Chains.{bind-Parts, ok-injective}
use amun.Parser.Times.{
  InsideLoop, then-ok, check_inside_loop-passed, check_inside_loop-pass, check_times-Times,
  check_times-accepts,
}

-- The statements that are accepted behind the keyword, with the state behind them: without a number, and
-- with an integer from 1 up to the number of loops that are open.
pub data Accepted (call : Calls) (semicolon : Bytes) (make : Token → Bool → ℤ → Statement)
    (keyword : Token) (s : Parser) : Statement → Parser → Type 0 where
  once :
      {t : Parser} {token : Token}
      → InsideLoop s
      → s.current_token ≡ some token
      → kind_eq token.kind token_semicolon ≡ true
      → assert_kind token_semicolon semicolon s ≡ ok tt t
      → Accepted call semicolon make keyword s (make keyword false (pos 1)) t
  many :
      {u t : Parser} {token number : Token} {type : AmunType} {n level : ℕ} {levels : List ℕ}
      → InsideLoop s
      → s.current_token ≡ some token
      → kind_eq token.kind token_semicolon ≡ false
      → call.parse_expression s ≡ ok (number_expression number type) u
      → is_float_number_token number ≡ false
      → number_of number.literal ≡ some (pos n)
      → u.loop_levels_stack ≡ level ∷ levels
      → 0 < n
      → n ≤ level
      → assert_kind token_semicolon (codes "Expect semicolon `;` after brea statement") u ≡ ok tt t
      → Accepted call semicolon make keyword s (make keyword true (pos n)) t

Accepted-inside :
    (call : Calls) (semicolon : Bytes) (make : Token → Bool → ℤ → Statement) (keyword : Token)
    (s : Parser) {statement : Statement} {t : Parser}
    → Accepted call semicolon make keyword s statement t
    → InsideLoop s
Accepted-inside call semicolon make keyword s (once i e p h) = i
Accepted-inside call semicolon make keyword s (many i e p h f v k l u h') = i

-- The two ways through a `when` that gives a result.
data Went {A : Type 0} (test : Test) (hit miss : Parse A) (s : Parser) (a : A) (t : Parser)
    : Type 0 where
  hits :
      {token : Token}
      → s.current_token ≡ some token
      → test s token ≡ true
      → hit s ≡ ok a t
      → Went test hit miss s a t
  misses :
      {token : Token}
      → s.current_token ≡ some token
      → test s token ≡ false
      → miss s ≡ ok a t
      → Went test hit miss s a t

when-Went :
    {A : Type 0} (test : Test) (hit miss : Parse A) (s : Parser) {a : A} {t : Parser}
    (o : Option Token)
    → s.current_token ≡ o
    → branch test hit miss o s ≡ ok a t
    → Went test hit miss s a t
when-Went test hit miss s none e h = absurd (cc h)
when-Went test hit miss s {a} {t} (some token) e h = elim (Bool-cases (test s token)) [
  | inl p ↦ hits e p (ap (λ b. if b then hit s else miss s) (sym p) ∙ h)
  | inr p ↦ misses e p (ap (λ b. if b then hit s else miss s) (sym p) ∙ h)
]

when-taken :
    {A : Type 0} (test : Test) (hit miss : Parse A) (s : Parser) {token : Token} {b : Bool}
    → s.current_token ≡ some token
    → test s token ≡ b
    → when test hit miss s ≡ (if b then hit s else miss s)
unfolding when
when-taken test hit miss s e p =
    ap (λ o. branch test hit miss o s) e ∙ ap (λ b. if b then hit s else miss s) p

as_number-some :
    (e : Expression) {number : Token} {type : AmunType}
    → as_number e ≡ some (number, type)
    → e ≡ number_expression number type
unfolding as_number
as_number-some (number_expression value type) h = cc h
as_number-some _ h = absurd (cc h)

module _ (call : Calls) (m : TimesMessages) (semicolon : Bytes)
    (make : Token → Bool → ℤ → Statement) (keyword : Token) (s : Parser) where
  with_number : Parse Statement
  with_number = call.parse_expression >>= λ times.
      choose (as_number times) pure (report_error keyword.position m.number) >>= λ number.
      check_times m keyword number.0 >>= λ times_int. pure (make keyword true times_int)

  without_number : Parse Statement
  without_number = assert_kind token_semicolon semicolon >>= λ _. pure (make keyword false (pos 1))

  number-of_choose :
      (e : Expression) (o : Option (Token × AmunType)) (u : Parser) {number : Token × AmunType}
      {t : Parser}
      → as_number e ≡ o
      → choose o pure (report_error keyword.position m.number) u ≡ ok number t
      → (e ≡ number_expression number.0 number.1) × (u ≡ t)
  unfolding choose pure report_error
  number-of_choose e none u p h = absurd (cc h)
  number-of_choose e (some x) u p h =
      let q = ok-injective h in (as_number-some e (p ∙ ap some q.0), q.1)

  Accepted-same :
      {a b : Statement} {t u : Parser}
      → a ≡ b
      → t ≡ u
      → Accepted call semicolon make keyword s a t
      → Accepted call semicolon make keyword s b u
  Accepted-same e f h = rw (← e, ← f) h

  Went-Accepted :
      {statement : Statement} {t : Parser}
      → InsideLoop s
      → Went (is_current_kind token_semicolon) without_number with_number s statement t
      → Accepted call semicolon make keyword s statement t
  unfolding with_number without_number is_current_kind pure
  Went-Accepted i (hits e p h) =
      let a = bind-Parts (assert_kind token_semicolon semicolon) _ s h in
      let q = ok-injective a.went in Accepted-same q.0 q.1 (once i e p a.ran)
  Went-Accepted i (misses e p h) =
      let a = bind-Parts call.parse_expression _ s h in
      let b =
        bind-Parts (choose (as_number a.value) pure (report_error keyword.position m.number)) _
          a.state a.went in
      let n = number-of_choose a.value (as_number a.value) a.state refl b.ran in
      let c = bind-Parts (check_times m keyword b.value.0) _ b.state b.went in
      let x = check_times-Times m keyword b.value.0 b.state c.ran in
      let q = ok-injective c.went in
      Accepted-same (ap (make keyword true) (sym x.is) ∙ q.0) q.1 (
        many {number = b.value.0} {type = b.value.1} i e p
          (a.ran ∙ ap (λ e. ok e a.state) n.0 ∙ ap (ok (number_expression b.value.0 b.value.1)) n.1)
          x.integer x.value_of x.stack x.lower x.upper x.semicolon)

  Accepted-when :
      {statement : Statement} {t : Parser}
      → Accepted call semicolon make keyword s statement t
      → when (is_current_kind token_semicolon) without_number with_number s ≡ ok statement t
  unfolding when is_current_kind with_number without_number pure as_number choose
  Accepted-when (once i e p h) =
      when-taken (is_current_kind token_semicolon) without_number with_number s e p
      ∙ then-ok (assert_kind token_semicolon semicolon) _ h refl
  Accepted-when
        (many {u = u} {number = number} {type = type} i e p h integer v stack lower upper h') =
      when-taken (is_current_kind token_semicolon) without_number with_number s e p
      ∙ then-ok call.parse_expression _ h (
          then-ok (pure (number, type)) _ refl (
            then-ok (check_times m keyword number) _
              (check_times-accepts m keyword number u integer v stack lower upper h') refl))

-- Behind their keyword `break` and `continue` give a statement exactly in the scope of a condition or a
-- loop with at least one loop open, and there exactly in two ways: at a semicolon, and then the statement
-- has the number 1; or with the literal of an integer from 1 up to the number of loops that are open, a
-- semicolon behind it, and then it has that number. The token behind the semicolon is to be scanned.
pub parse_times-Accepted :
    (call : Calls) (m : TimesMessages) (semicolon : Bytes) (make : Token → Bool → ℤ → Statement)
    (keyword : Token) (s : Parser) (statement : Statement) (t : Parser)
    → (parse_times call m semicolon make keyword s ≡ ok statement t)
      ↔ Accepted call semicolon make keyword s statement t
unfolding parse_times with_number without_number when
parse_times-Accepted call m semicolon make keyword s statement t = (
  λ h.
      let p = bind-Parts (check_inside_loop keyword.position m.outside) _ s h in
      let q = check_inside_loop-passed s keyword.position m.outside p.ran in
      Went-Accepted call m semicolon make keyword s q.0
        (when-Went (is_current_kind token_semicolon) _ _ s s.current_token refl (rw q.1 p.went)),
  λ a.
      then-ok (check_inside_loop keyword.position m.outside) _
        (check_inside_loop-pass s keyword.position m.outside
          (Accepted-inside call semicolon make keyword s a))
        (Accepted-when call m semicolon make keyword s a),
)
