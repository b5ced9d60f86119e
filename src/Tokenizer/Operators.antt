-- ===== src/Tokenizer/Operators.antt =====
-- Every operator and punctuation mark that the switch of `scan_next_token` can emit, as it is
-- spelled, and that its case emits it (src/amun_tokenizer.cpp).
use mathlib.Core.Path.{subst}
use amun.Prelude.{◌≡◌, refl, Bool, true, false, [], ◌∷◌, ◌++◌, arith}
use amun.Prelude.Text.{Bytes, codes}
use amun.Token.{TokenKind}
use amun.Token.{
  token_and, token_and_and, token_and_equal, token_at, token_bang, token_bang_equal,
  token_close_brace, token_close_bracket, token_close_paren, token_colon, token_colon_colon,
  token_comma, token_dot, token_dot_dot, token_equal, token_equal_equal, token_greater,
  token_greater_equal, token_left_shift, token_left_shift_equal, token_minus, token_minus_equal,
  token_minus_minus, token_not, token_open_brace, token_open_bracket, token_open_paren, token_or,
  token_or_equal, token_or_or, token_parcent_equal, token_percent, token_plus, token_plus_equal,
  token_plus_plus, token_right_arrow, token_right_shift_equal, token_semicolon, token_slash,
  token_slash_equal, token_smaller, token_smaller_equal, token_star, token_star_equal, token_xor,
  token_xor_equal,
}
use amun.Tokenizer.{Tokenizer, Scanned}
use amun.Tokenizer.View.{first}
use amun.Tokenizer.Begun.{Begun, Yields, is_solid}
use amun.Tokenizer.Plans.{run, follow, run-follow, plan_of, NoZero}
use amun.Tokenizer.Scan.{
  scan_switch, switch_one, switch_two, switch_assign, scan_other, one_character, two_characters,
  assign_or_twice, scan_minus, scan_greater, scan_shift, scan_smaller,
}

-- The spelling of an operator; no other kind has one here.
abbrev pub operator_text : TokenKind → Bytes
operator_text token_dot = codes "."
operator_text token_dot_dot = codes ".."
operator_text token_comma = codes ","
operator_text token_colon = codes ":"
operator_text token_colon_colon = codes "::"
operator_text token_semicolon = codes ";"
operator_text token_at = codes "@"
operator_text token_plus = codes "+"
operator_text token_minus = codes "-"
operator_text token_star = codes "*"
operator_text token_slash = codes "/"
operator_text token_percent = codes "%"
operator_text token_and = codes "&"
operator_text token_and_and = codes "&&"
operator_text token_or = codes "|"
operator_text token_or_or = codes "||"
operator_text token_xor = codes "^"
operator_text token_not = codes "~"
operator_text token_equal = codes "="
operator_text token_equal_equal = codes "=="
operator_text token_bang = codes "!"
operator_text token_bang_equal = codes "!="
operator_text token_greater = codes ">"
operator_text token_greater_equal = codes ">="
operator_text token_smaller = codes "<"
operator_text token_smaller_equal = codes "<="
operator_text token_right_shift_equal = codes ">>="
operator_text token_left_shift = codes "<<"
operator_text token_left_shift_equal = codes "<<="
operator_text token_plus_equal = codes "+="
operator_text token_minus_equal = codes "-="
operator_text token_star_equal = codes "*="
operator_text token_slash_equal = codes "/="
operator_text token_parcent_equal = codes "%="
operator_text token_plus_plus = codes "++"
operator_text token_minus_minus = codes "--"
operator_text token_right_arrow = codes "->"
operator_text token_open_paren = codes "("
operator_text token_close_paren = codes ")"
operator_text token_open_bracket = codes "["
operator_text token_close_bracket = codes "]"
operator_text token_open_brace = codes "{"
operator_text token_close_brace = codes "}"
operator_text token_or_equal = codes "|="
operator_text token_and_equal = codes "&="
operator_text token_xor_equal = codes "^="
operator_text _ = []

abbrev pub is_operator : TokenKind → Bool
is_operator k = elim (operator_text k) [ [] ↦ false | _ ∷ _ ↦ true ]

abbrev pub rest_of : Bytes → Bytes
rest_of [] = []
rest_of (c ∷ cs) = cs

-- The separator of the words of a text, or its end.
pub data Separated : Bytes → Type 0 where
  at_end : Separated []
  at_space : (rest : Bytes) → Separated (b' ' ∷ rest)

-- Its plan emits the operator in front of `rest`, and what is written starts a token.
abbrev EmitsBefore : TokenKind → Bytes → Type 0
EmitsBefore k rest =
    (follow (plan_of (first (operator_text k))) (rest_of (operator_text k) ++ rest) ≡ (k, rest))
    × (is_solid (first (operator_text k)) (rest_of (operator_text k) ++ rest) ≡ true)

-- The operator is what its plan emits at the end of the text and before a space.
record Emits (k : TokenKind) : Type 0 where
  switched :
      (s : Tokenizer)
      → scan_switch (first (operator_text k)) s ≡ run (plan_of (first (operator_text k))) s
  no_zero : NoZero (plan_of (first (operator_text k)))
  at_text_end : EmitsBefore k []
  before_space : (rest : Bytes) → EmitsBefore k (b' ' ∷ rest)

emits :
    (k : TokenKind)
    → ((s : Tokenizer)
        → scan_switch (first (operator_text k)) s ≡ run (plan_of (first (operator_text k))) s)
    → NoZero (plan_of (first (operator_text k)))
    → EmitsBefore k []
    → ((rest : Bytes) → EmitsBefore k (b' ' ∷ rest))
    → Emits k
emits k a b c d = record { switched = a; no_zero = b; at_text_end = c; before_space = d }

operator-Emits : (k : TokenKind) → is_operator k ≡ true → Emits k
unfolding scan_switch switch_one one_character switch_two two_characters switch_assign
    assign_or_twice scan_other scan_minus scan_greater scan_shift scan_smaller run follow
operator-Emits token_dot h =
    emits token_dot (λ s. refl) (omega arith) (refl, refl) (λ rest. (refl, refl))
operator-Emits token_dot_dot h =
    emits token_dot_dot (λ s. refl) (omega arith) (refl, refl) (λ rest. (refl, refl))
operator-Emits token_comma h =
    emits token_comma (λ s. refl) (omega arith) (refl, refl) (λ rest. (refl, refl))
operator-Emits token_colon h =
    emits token_colon (λ s. refl) (omega arith) (refl, refl) (λ rest. (refl, refl))
operator-Emits token_colon_colon h =
    emits token_colon_colon (λ s. refl) (omega arith) (refl, refl) (λ rest. (refl, refl))
operator-Emits token_semicolon h =
    emits token_semicolon (λ s. refl) (omega arith) (refl, refl) (λ rest. (refl, refl))
operator-Emits token_at h =
    emits token_at (λ s. refl) (omega arith) (refl, refl) (λ rest. (refl, refl))
operator-Emits token_plus h =
    emits token_plus (λ s. refl) (omega arith) (refl, refl) (λ rest. (refl, refl))
operator-Emits token_minus h =
    emits token_minus (λ s. refl) (omega arith) (refl, refl) (λ rest. (refl, refl))
operator-Emits token_star h =
    emits token_star (λ s. refl) (omega arith) (refl, refl) (λ rest. (refl, refl))
operator-Emits token_slash h =
    emits token_slash (λ s. refl) (omega arith) (refl, refl) (λ rest. (refl, refl))
operator-Emits token_percent h =
    emits token_percent (λ s. refl) (omega arith) (refl, refl) (λ rest. (refl, refl))
operator-Emits token_and h =
    emits token_and (λ s. refl) (omega arith) (refl, refl) (λ rest. (refl, refl))
operator-Emits token_and_and h =
    emits token_and_and (λ s. refl) (omega arith) (refl, refl) (λ rest. (refl, refl))
operator-Emits token_or h =
    emits token_or (λ s. refl) (omega arith) (refl, refl) (λ rest. (refl, refl))
operator-Emits token_or_or h =
    emits token_or_or (λ s. refl) (omega arith) (refl, refl) (λ rest. (refl, refl))
operator-Emits token_xor h =
    emits token_xor (λ s. refl) (omega arith) (refl, refl) (λ rest. (refl, refl))
operator-Emits token_not h =
    emits token_not (λ s. refl) (omega arith) (refl, refl) (λ rest. (refl, refl))
operator-Emits token_equal h =
    emits token_equal (λ s. refl) (omega arith) (refl, refl) (λ rest. (refl, refl))
operator-Emits token_equal_equal h =
    emits token_equal_equal (λ s. refl) (omega arith) (refl, refl) (λ rest. (refl, refl))
operator-Emits token_bang h =
    emits token_bang (λ s. refl) (omega arith) (refl, refl) (λ rest. (refl, refl))
operator-Emits token_bang_equal h =
    emits token_bang_equal (λ s. refl) (omega arith) (refl, refl) (λ rest. (refl, refl))
operator-Emits token_greater h =
    emits token_greater (λ s. refl) (tt, (refl, refl, tt, tt)) (refl, refl) (λ rest. (refl, refl))
operator-Emits token_greater_equal h =
    emits token_greater_equal (λ s. refl) (tt, (refl, refl, tt, tt)) (refl, refl)
      (λ rest. (refl, refl))
operator-Emits token_smaller h =
    emits token_smaller (λ s. refl) (omega arith) (refl, refl) (λ rest. (refl, refl))
operator-Emits token_smaller_equal h =
    emits token_smaller_equal (λ s. refl) (omega arith) (refl, refl) (λ rest. (refl, refl))
operator-Emits token_right_shift_equal h =
    emits token_right_shift_equal (λ s. refl) (tt, (refl, refl, tt, tt)) (refl, refl)
      (λ rest. (refl, refl))
operator-Emits token_left_shift h =
    emits token_left_shift (λ s. refl) (omega arith) (refl, refl) (λ rest. (refl, refl))
operator-Emits token_left_shift_equal h =
    emits token_left_shift_equal (λ s. refl) (omega arith) (refl, refl) (λ rest. (refl, refl))
operator-Emits token_plus_equal h =
    emits token_plus_equal (λ s. refl) (omega arith) (refl, refl) (λ rest. (refl, refl))
operator-Emits token_minus_equal h =
    emits token_minus_equal (λ s. refl) (omega arith) (refl, refl) (λ rest. (refl, refl))
operator-Emits token_star_equal h =
    emits token_star_equal (λ s. refl) (omega arith) (refl, refl) (λ rest. (refl, refl))
operator-Emits token_slash_equal h =
    emits token_slash_equal (λ s. refl) (omega arith) (refl, refl) (λ rest. (refl, refl))
operator-Emits token_parcent_equal h =
    emits token_parcent_equal (λ s. refl) (omega arith) (refl, refl) (λ rest. (refl, refl))
operator-Emits token_plus_plus h =
    emits token_plus_plus (λ s. refl) (omega arith) (refl, refl) (λ rest. (refl, refl))
operator-Emits token_minus_minus h =
    emits token_minus_minus (λ s. refl) (omega arith) (refl, refl) (λ rest. (refl, refl))
operator-Emits token_right_arrow h =
    emits token_right_arrow (λ s. refl) (omega arith) (refl, refl) (λ rest. (refl, refl))
operator-Emits token_open_paren h =
    emits token_open_paren (λ s. refl) (omega arith) (refl, refl) (λ rest. (refl, refl))
operator-Emits token_close_paren h =
    emits token_close_paren (λ s. refl) (omega arith) (refl, refl) (λ rest. (refl, refl))
operator-Emits token_open_bracket h =
    emits token_open_bracket (λ s. refl) (omega arith) (refl, refl) (λ rest. (refl, refl))
operator-Emits token_close_bracket h =
    emits token_close_bracket (λ s. refl) (omega arith) (refl, refl) (λ rest. (refl, refl))
operator-Emits token_open_brace h =
    emits token_open_brace (λ s. refl) (omega arith) (refl, refl) (λ rest. (refl, refl))
operator-Emits token_close_brace h =
    emits token_close_brace (λ s. refl) (omega arith) (refl, refl) (λ rest. (refl, refl))
operator-Emits token_or_equal h =
    emits token_or_equal (λ s. refl) (omega arith) (refl, refl) (λ rest. (refl, refl))
operator-Emits token_and_equal h =
    emits token_and_equal (λ s. refl) (omega arith) (refl, refl) (λ rest. (refl, refl))
operator-Emits token_xor_equal h =
    emits token_xor_equal (λ s. refl) (omega arith) (refl, refl) (λ rest. (refl, refl))
operator-Emits _ h = cc

read :
    {k : TokenKind} {rest : Bytes} {r : Scanned} (p : TokenKind × Bytes)
    → p ≡ (k, rest)
    → Yields p.0 [] p.1 r
    → Yields k [] rest r
read {r} p e y = subst (λ (q : TokenKind × Bytes). Yields q.0 [] q.1 r) e y

-- Each operator is read as one token, up to the space or the end of the text behind it.
pub operator-Yields :
    (k : TokenKind) (s : Tokenizer) {rest : Bytes}
    → is_operator k ≡ true
    → Separated rest
    → Begun s (first (operator_text k)) (rest_of (operator_text k) ++ rest)
    → Yields k [] rest (scan_switch (first (operator_text k)) s)
operator-Yields k s h at_end b =
    let e = operator-Emits k h in
    rw (e.switched s) (
      read (follow _ _) e.at_text_end.0
        (run-follow (plan_of (first (operator_text k))) _ e.no_zero b.left))
operator-Yields k s h (at_space rest) b =
    let e = operator-Emits k h in
    rw (e.switched s) (
      read (follow _ _) (e.before_space rest).0
        (run-follow (plan_of (first (operator_text k))) _ e.no_zero b.left))

pub operator-is_solid :
    (k : TokenKind) {rest : Bytes}
    → is_operator k ≡ true
    → Separated rest
    → is_solid (first (operator_text k)) (rest_of (operator_text k) ++ rest) ≡ true
operator-is_solid k h at_end = (operator-Emits k h).at_text_end.1
operator-is_solid k h (at_space rest) = ((operator-Emits k h).before_space rest).1
