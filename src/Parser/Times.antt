-- ===== src/Parser/Times.antt =====
-- The checks of `break` and `continue` in src/amun_parser.cpp: what they let pass.
use amun.Prelude.{
  ℕ, zero, suc, ◌≡◌, ◌<◌, ◌≤◌, refl, Bool, true, false, arith, if◌then◌else◌, List, [], ◌∷◌, Option,
  some, none, ltb, ℤ, pos, negsuc, ◌==◌, not, ap, sym, ◌∙◌,
}
use amun.Prelude.Text.{Bytes, codes}
use amun.Token.{Token, TokenSpan, token_semicolon}
use amun.Token.Operators.{is_float_number_token}
use amun.Parser.{Parser, Parse, Outcome, ok, report_error, gets, value, pure, done, ◌>>=◌}
use amun.Parser.Reading.{assert_kind}
use amun.Parser.Checks.{refuse_if, number_of}
use amun.Parser.Breaks.{
  check_inside_loop, check_times, is_condition_scope, is_positive, exceeds, top_of, TimesMessages,
}
use amun.Parser.Chains.{bind-Parts, ok-injective}

-- The state stands in a condition or a loop, and a loop is open.
pub record InsideLoop (s : Parser) : Type 0 where
  pub scope : is_condition_scope s.current_ast_scope ≡ true
  pub outer : ℕ
  pub levels : List ℕ
  pub level : s.loop_levels_stack ≡ suc outer ∷ levels

pub then-ok :
    {A B : Type 0} (m : Parse A) (k : A → Parse B) {a : A} {s t : Parser} {o : Outcome B}
    → m s ≡ ok a t
    → k a t ≡ o
    → (m >>= k) s ≡ o
unfolding ◌>>=◌
then-ok m k h g = rw h g

refuse_if-then :
    {B : Type 0} (c : Bool) (position : TokenSpan) (message : Bytes) (k : Unit → Parse B)
    (u : Parser) {b : B} {t : Parser}
    → (refuse_if c position message >>= k) u ≡ ok b t
    → (c ≡ false) × (k tt u ≡ ok b t)
unfolding refuse_if report_error done ◌>>=◌
refuse_if-then true position message k u h = absurd (cc h)
refuse_if-then false position message k u h = (refl, h)

value-then :
    {A B : Type 0} (o : Option A) (k : A → Parse B) (u : Parser) {b : B} {t : Parser}
    → (value o >>= k) u ≡ ok b t
    → (a : A) × (o ≡ some a) × (k a u ≡ ok b t)
unfolding value ◌>>=◌
value-then none k u h = absurd (cc h)
value-then (some a) k u h = (a, refl, h)

gets-then :
    {A B : Type 0} (f : Parser → A) (k : A → Parse B) (u : Parser) {o : Outcome B}
    → (gets f >>= k) u ≡ o
    → k (f u) u ≡ o
unfolding gets ◌>>=◌
gets-then f k u h = h

refuse_if-pass :
    (c : Bool) (position : TokenSpan) (message : Bytes) (s : Parser)
    → c ≡ false
    → refuse_if c position message s ≡ ok tt s
unfolding refuse_if done
refuse_if-pass c position message s h = rw h refl

checked-levels :
    (s : Parser) (position : TokenSpan) (message : Bytes) (b : Bool) (levels : List ℕ) {t : Parser}
    → is_condition_scope s.current_ast_scope ≡ b
    → s.loop_levels_stack ≡ levels
    → (if b
          then (value (top_of levels) >>= λ level. refuse_if (level == 0) position message)
          else report_error position message)
        s
      ≡ ok tt t
    → InsideLoop s × (s ≡ t)
unfolding value top_of ◌>>=◌ report_error refuse_if done
checked-levels s position message false levels c l h = absurd (cc h)
checked-levels s position message true [] c l h = absurd (cc h)
checked-levels s position message true (zero ∷ levels) c l h = absurd (cc h)
checked-levels s position message true (suc n ∷ levels) c l h =
    (record { scope = c; outer = n; levels = levels; level = l }, ground (arith, h))

pub check_inside_loop-passed :
    (s : Parser) (position : TokenSpan) (message : Bytes) {t : Parser}
    → check_inside_loop position message s ≡ ok tt t
    → InsideLoop s × (s ≡ t)
unfolding check_inside_loop gets ◌>>=◌
check_inside_loop-passed s position message h =
    checked-levels s position message (is_condition_scope s.current_ast_scope) s.loop_levels_stack
      refl refl h

pub check_inside_loop-pass :
    (s : Parser) (position : TokenSpan) (message : Bytes)
    → InsideLoop s
    → check_inside_loop position message s ≡ ok tt s
unfolding check_inside_loop gets ◌>>=◌ value top_of refuse_if done
check_inside_loop-pass s position message i =
    rw (i.scope, i.level) (refuse_if-pass (suc i.outer == 0) position message _ (ground arith))

-- What `check_times` accepts.
pub record Times (number : Token) (u : Parser) (result : ℤ) (t : Parser) : Type 0 where
  pub n : ℕ
  pub level : ℕ
  pub levels : List ℕ
  pub is : result ≡ pos n
  pub integer : is_float_number_token number ≡ false
  pub value_of : number_of number.literal ≡ some (pos n)
  pub stack : u.loop_levels_stack ≡ level ∷ levels
  pub lower : 0 < n
  pub upper : n ≤ level
  pub semicolon :
      assert_kind token_semicolon (codes "Expect semicolon `;` after brea statement") u ≡ ok tt t

top_of-some :
    (levels : List ℕ) {level : ℕ}
    → top_of levels ≡ some level
    → (rest : List ℕ) × (levels ≡ level ∷ rest)
unfolding top_of
top_of-some [] h = absurd (cc h)
top_of-some (l ∷ ls) h = (ls, cc h)

is_positive-some : (z : ℤ) → not (is_positive z) ≡ false → (n : ℕ) × (z ≡ pos n) × (0 < n)
is_positive-some (pos n) h = (n, refl, ground (arith, h))
is_positive-some (negsuc n) h = absurd (cc h)

bounded : (n level : ℕ) → exceeds (pos n) level ≡ false → n ≤ level
bounded n level h = ground (arith, h)

pub check_times-Times :
    (m : TimesMessages) (keyword number : Token) (u : Parser) {result : ℤ} {t : Parser}
    → check_times m keyword number u ≡ ok result t
    → Times number u result t
unfolding check_times pure
check_times-Times m keyword number u h =
    let integer = refuse_if-then (is_float_number_token number) keyword.position m.floating _ u h in
    let number_value = value-then (number_of number.literal) _ u integer.1 in
    let positive =
      refuse_if-then (not (is_positive number_value.0)) keyword.position m.positive _ u
        number_value.2 in
    let n = is_positive-some number_value.0 positive.0 in
    let level =
      value-then (top_of u.loop_levels_stack) _ u
        (gets-then (λ s. s.loop_levels_stack) _ u positive.1) in
    let top = top_of-some u.loop_levels_stack level.1 in
    let bound = refuse_if-then (exceeds number_value.0 level.0) keyword.position _ _ u level.2 in
    let end =
      bind-Parts (assert_kind token_semicolon (codes "Expect semicolon `;` after brea statement")) _
        u bound.1 in
    let same = ok-injective end.went in
    record {
      n = n.0;
      level = level.0;
      levels = top.0;
      is = sym same.0 ∙ n.1;
      integer = integer.0;
      value_of = number_value.1 ∙ ap some n.1;
      stack = top.1;
      lower = n.2;
      upper = bounded n.0 level.0 (ap (λ z. exceeds z level.0) (sym n.1) ∙ bound.0);
      semicolon = end.ran ∙ ap (ok _) same.1;
    }

pub check_times-accepts :
    (m : TimesMessages) (keyword number : Token) (u : Parser) {n level : ℕ} {levels : List ℕ}
    {t : Parser}
    → is_float_number_token number ≡ false
    → number_of number.literal ≡ some (pos n)
    → u.loop_levels_stack ≡ level ∷ levels
    → 0 < n
    → n ≤ level
    → assert_kind token_semicolon (codes "Expect semicolon `;` after brea statement") u ≡ ok tt t
    → check_times m keyword number u ≡ ok (pos n) t
unfolding check_times gets pure value top_of
check_times-accepts m keyword number u {n} {level} integer v stack lower upper h =
    then-ok (refuse_if (is_float_number_token number) keyword.position m.floating) _
      (refuse_if-pass _ keyword.position m.floating u integer)
      (then-ok (value (number_of number.literal)) _ (rw v refl) (
        then-ok (refuse_if (not (ltb 0 n)) keyword.position m.positive) _
          (refuse_if-pass _ keyword.position m.positive u (ground (arith, lower)))
          (then-ok (gets (λ s. s.loop_levels_stack)) _ refl (
            then-ok (value (top_of u.loop_levels_stack)) _ (rw stack refl) (
              then-ok (refuse_if (ltb level n) keyword.position _) _
                (refuse_if-pass _ keyword.position _ u (ground (arith, upper)))
                (then-ok (assert_kind token_semicolon _) _ h refl))))))
