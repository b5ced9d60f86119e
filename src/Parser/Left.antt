-- ===== src/Parser/Left.antt =====
-- The tokens that the parser of src/amun_parser.cpp has left, as a number that each scan lowers.
use amun.Prelude.{
  ℕ, ◌+◌, ◌-◌, ◌<◌, ◌≤◌, ◌≡◌, refl, inl, inr, Option, none, some, [], arith, ltb, if◌then◌else◌,
  Bool-cases,
}
use amun.Token.{Token, kind_eq, token_end_of_file}
use amun.Tokenizer.{Tokenizer, advance, build_token, is_source_available}
use amun.Tokenizer.Blank.{skip_whitespaces, skip_loop}
use amun.Tokenizer.Scan.{begin_token, scan_next_token}
use amun.Tokenizer.Total.{scan_switch-zero, scan_next_token-Progress}
use amun.Parser.{Parser}

unfoldable pub weight : Option Token → ℕ
weight none = 1
weight (some token) = if kind_eq token.kind token_end_of_file then 0 else 1

-- The bytes that are not scanned, and the scanned tokens but the end of the file.
abbrev pub tokens_left : Parser → ℕ
tokens_left s =
    (s.tokenizer.source_code_length - s.tokenizer.current_position)
    + weight s.current_token
    + weight s.next_token

skip_whitespaces-past :
    (s : Tokenizer) → s.source_code_length - s.current_position ≡ 0 → skip_whitespaces s ≡ s
unfolding skip_whitespaces skip_loop
skip_whitespaces-past s h = rw h refl

begin_token-past :
    (s : Tokenizer)
    → s.source_code_length < s.current_position
    → ((begin_token s).1 ≡ 0)
      × ((begin_token s).0.source_code_length ≡ s.source_code_length)
      × ((begin_token s).0.current_position ≡ s.current_position + 1)
unfolding begin_token advance is_source_available
begin_token-past s h = ground arith

-- Behind the end of the text each scan gives the end of the file.
past_end :
    (s : Tokenizer)
    → s.source_code_length < s.current_position
    → scan_next_token s ≡ build_token token_end_of_file [] (begin_token s).0
unfolding scan_next_token
past_end s h =
    let b = begin_token-past s h in
    rw (skip_whitespaces-past s (omega arith), b.0) (scan_switch-zero (begin_token s).0)

pub weight_le : (o : Option Token) → weight o ≤ 1
unfolding weight
weight_le none = omega arith
weight_le (some token) = ground arith

weight-end_of_file : (token : Token) → token.kind ≡ token_end_of_file → weight (some token) ≡ 0
unfolding weight
weight-end_of_file token e = rw e refl

abbrev pub unscanned : Tokenizer → ℕ
unscanned t = t.source_code_length - t.current_position

-- One scan: the bytes left and the scanned token weigh no more than the bytes left before.
pub scan_next_token-unscanned :
    (s : Tokenizer)
    → unscanned (scan_next_token s).0 + weight (some (scan_next_token s).1) ≤ unscanned s
unfolding build_token
scan_next_token-unscanned s = elim (Bool-cases (ltb s.source_code_length s.current_position)) [
  | inl past ↦
      let b = begin_token-past s (ground arith) in
      rw (past_end s (ground arith)) (
        rw (weight-end_of_file (build_token token_end_of_file [] (begin_token s).0).1 refl)
          (omega (arith, b.1, b.2)))
  | inr inside ↦
      let p = scan_next_token-Progress s (ground arith) in
      elim p.ends [
        | inl within ↦
            omega (arith, weight_le (some (scan_next_token s).1), p.past, p.forward, p.same_length)
        | inr (last, position) ↦
            rw (weight-end_of_file (scan_next_token s).1 last) (omega (arith, p.same_length))
      ]
]
