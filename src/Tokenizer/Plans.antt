-- ===== src/Tokenizer/Plans.antt =====
-- The operators and the punctuation as decision plans: what the switch of `scan_next_token` does on
-- the bytes behind the first one (src/amun_tokenizer.cpp).
use mathlib.Core.Path.{subst}
use amun.Prelude.{
  ℕ, ◌≡◌, true, false, arith, ◌==◌, ◌&&◌, if◌then◌else◌, drop, [], ◌∷◌, inl, inr, Bool-cases,
}
use amun.Prelude.Text.{Bytes}
use amun.Token.{TokenKind}
use amun.Token.{
  token_and, token_and_and, token_undefined, token_and_equal, token_at, token_bang,
  token_bang_equal, token_close_brace, token_close_bracket, token_close_paren, token_colon,
  token_colon_colon, token_comma, token_dot, token_dot_dot, token_equal, token_equal_equal,
  token_greater, token_greater_equal, token_left_shift, token_left_shift_equal, token_minus,
  token_minus_equal, token_minus_minus, token_not, token_open_brace, token_open_bracket,
  token_open_paren, token_or, token_or_equal, token_or_or, token_parcent_equal, token_percent,
  token_plus, token_plus_equal, token_plus_plus, token_right_arrow, token_right_shift_equal,
  token_semicolon, token_slash, token_slash_equal, token_smaller, token_smaller_equal, token_star,
  token_star_equal, token_xor, token_xor_equal,
}
use amun.Tokenizer.{Tokenizer, Scanned, step, build_token, match_two, branch, on_match}
use amun.Tokenizer.View.{At, first, second, step-At, on_match-starts, peek-first, peek_next-second}
use amun.Tokenizer.Begun.{Yields, build_token-Yields}

-- Emit a kind, or go on by whether the next byte, or the next two bytes, match.
pub data Plan : Type 0 where
  emit : TokenKind → Plan
  on : ℕ → Plan → Plan → Plan
  on_pair : ℕ → ℕ → Plan → Plan → Plan

unfoldable pub run : Plan → Tokenizer → Scanned
run (emit kind) = build_token kind []
run (on c hit miss) = on_match c (run hit) (run miss)
run (on_pair c d hit miss) = λ s. branch (run hit) (run miss) (match_two c d s)

-- The same on a list: the kind, and what is left.
unfoldable pub follow : Plan → Bytes → TokenKind × Bytes
follow (emit kind) rest = (kind, rest)
follow (on c hit miss) [] = follow miss []
follow (on c hit miss) (d ∷ rest) = if c == d then follow hit rest else follow miss (d ∷ rest)
follow (on_pair c d hit miss) rest =
    if c == first rest && d == second rest then follow hit (drop 2 rest) else follow miss rest

-- No second byte of a plan is the zero that stands behind the text.
abbrev pub NoZero : Plan → Type 0
NoZero (emit kind) = Unit
NoZero (on c hit miss) = NoZero hit × NoZero miss
NoZero (on_pair c d hit miss) = ((c == 0) ≡ false) × ((d == 0) ≡ false) × NoZero hit × NoZero miss

match_two-first :
    (c d : ℕ) {s : Tokenizer} (rest : Bytes)
    → At s rest
    → match_two c d s
      ≡ (if c == first rest && d == second rest then (step 2 s, true) else (s, false))
unfolding match_two
match_two-first c d rest h = rw (peek-first rest h, peek_next-second rest h)

-- Two bytes that are not zero can match only where two bytes are left.
drop_two-At :
    (c d : ℕ) {s : Tokenizer} (rest : Bytes)
    → (c == 0) ≡ false
    → (d == 0) ≡ false
    → (c == first rest && d == second rest) ≡ true
    → At s rest
    → At (step 2 s) (drop 2 rest)
drop_two-At c d [] hc hd e h = absurd (ground arith)
drop_two-At c d (a ∷ []) hc hd e h = absurd (ground arith)
drop_two-At c d {s} (a ∷ b ∷ rest) hc hd e h =
    let twice : step 1 (step 1 s) ≡ step 2 s = ground arith in
    subst (λ t. At t rest) twice (step-At (step-At h))

pub run-follow :
    (p : Plan) {s : Tokenizer} (rest : Bytes)
    → NoZero p
    → At s rest
    → Yields (follow p rest).0 [] (follow p rest).1 (run p s)
unfolding run follow
run-follow (emit kind) rest z h = build_token-Yields kind [] h
run-follow (on c hit miss) [] z h =
    rw (on_match-starts c (run hit) (run miss) [] h) (run-follow miss [] z.1 h)
run-follow (on c hit miss) (d ∷ rest) z h =
    rw (on_match-starts c (run hit) (run miss) (d ∷ rest) h) (elim (Bool-cases (c == d)) [
      | inl e ↦ rw e (run-follow hit rest z.0 (step-At h))
      | inr e ↦ rw e (run-follow miss (d ∷ rest) z.1 h)
    ])
run-follow (on_pair c d hit miss) rest z h =
    rw (match_two-first c d rest h) (elim (Bool-cases (c == first rest && d == second rest)) [
      | inl e ↦ rw e (run-follow hit (drop 2 rest) z.2 (drop_two-At c d rest z.0 z.1 e h))
      | inr e ↦ rw e (run-follow miss rest z.3 h)
    ])

-- The plan of the case of the switch for a first byte.
abbrev pub plan_of : ℕ → Plan
plan_of c =
    if c == b','
    then emit token_comma
    else if c == b';'
    then emit token_semicolon
    else if c == b'@'
    then emit token_at
    else if c == b'~'
    then emit token_not
    else if c == b'('
    then emit token_open_paren
    else if c == b')'
    then emit token_close_paren
    else if c == b'['
    then emit token_open_bracket
    else if c == b']'
    then emit token_close_bracket
    else if c == b'{'
    then emit token_open_brace
    else if c == b'}'
    then emit token_close_brace
    else if c == b'.'
    then on b'.' (emit token_dot_dot) (emit token_dot)
    else if c == b':'
    then on b':' (emit token_colon_colon) (emit token_colon)
    else if c == b'='
    then on b'=' (emit token_equal_equal) (emit token_equal)
    else if c == b'!'
    then on b'=' (emit token_bang_equal) (emit token_bang)
    else if c == b'*'
    then on b'=' (emit token_star_equal) (emit token_star)
    else if c == b'/'
    then on b'=' (emit token_slash_equal) (emit token_slash)
    else if c == b'%'
    then on b'=' (emit token_parcent_equal) (emit token_percent)
    else if c == b'^'
    then on b'=' (emit token_xor_equal) (emit token_xor)
    else if c == b'+'
    then on b'=' (emit token_plus_equal) (on b'+' (emit token_plus_plus) (emit token_plus))
    else if c == b'|'
    then on b'=' (emit token_or_equal) (on b'|' (emit token_or_or) (emit token_or))
    else if c == b'&'
    then on b'=' (emit token_and_equal) (on b'&' (emit token_and_and) (emit token_and))
    else if c == b'-'
    then on b'=' (emit token_minus_equal) (
        on b'-' (on b'-' (emit token_undefined) (emit token_minus_minus))
          (on b'>' (emit token_right_arrow) (emit token_minus)))
    else if c == b'>'
    then on b'=' (emit token_greater_equal)
        (on_pair b'>' b'=' (emit token_right_shift_equal) (emit token_greater))
    else on b'=' (emit token_smaller_equal) (
        on b'<' (on b'=' (emit token_left_shift_equal) (emit token_left_shift))
          (emit token_smaller))
