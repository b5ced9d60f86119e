-- ===== src/Tokenizer/Words.antt =====
-- The first byte of a symbol, of a number and of a string picks their handler, and these read their
-- word up to the separator behind it (src/amun_tokenizer.cpp).
use amun.Prelude.{
  ℕ, ◌+◌, ◌-◌, ◌≡◌, refl, ap, ◌∙◌, Bool, true, false, arith, ◌==◌, [], ◌∷◌, ◌++◌, length,
  take_while-append, drop_while-append, Stops, all, ◌||◌, inl, inr, Bool-cases, none,
}
use amun.Prelude.Text.{Bytes}
use amun.Token.{token_int}
use amun.Tokenizer.{Tokenizer, Scanned, step, on_match}
use amun.Tokenizer.View.{At, first, starts, on_match-starts, peek-first}
use amun.Tokenizer.View.Spans.{advance_while-take_while, step-At_many}
use amun.Tokenizer.Begun.{Begun, Yields, build_token-Yields}
use amun.Tokenizer.Symbols.{substr-take_while, consume_symbol-Yields}
use amun.Tokenizer.Operators.{Separated, at_end, at_space}
use amun.Tokenizer.Keyword.{resolve_keyword_token_kind}
use amun.Tokenizer.Chars.{is_alpha_num, is_alpha, is_digit, is_underscore}
use amun.Tokenizer.Number.{
  substr, remove_underscores, digits, digit_or_underscore, scan_digits, after_digits, after_signed,
  no_suffix, number_token, consume_number,
}
use amun.Tokenizer.Text.{consume_symbol, symbol_char}
use amun.Tokenizer.Scan.{
  scan_switch, switch_one, switch_two, switch_assign, scan_other, scan_zero, one_character,
  two_characters, assign_or_twice,
}

module _ (c : ℕ) (word : symbol_char c ≡ true) where
  one_character-none : one_character c ≡ none
  unfolding one_character is_alpha_num
  one_character-none = ground arith

  two_characters-none : two_characters c ≡ none
  unfolding two_characters is_alpha_num
  two_characters-none = ground arith

  assign_or_twice-none : assign_or_twice c ≡ none
  unfolding assign_or_twice is_alpha_num
  assign_or_twice-none = ground arith

  pub scan_switch-other : (s : Tokenizer) → scan_switch c s ≡ scan_other c s
  unfolding scan_switch switch_one switch_two switch_assign
  scan_switch-other s = rw (one_character-none, two_characters-none, assign_or_twice-none)

symbol_start : (c : ℕ) → (is_alpha c || c == b'_') ≡ true → symbol_char c ≡ true
unfolding is_alpha_num
symbol_start c h = ground arith

pub digit_start : (c : ℕ) → is_digit c ≡ true → symbol_char c ≡ true
unfolding is_alpha_num
digit_start c h = ground arith

scan_other-symbol :
    (c : ℕ) (s : Tokenizer) → (is_alpha c || c == b'_') ≡ true → scan_other c s ≡ consume_symbol s
unfolding scan_other is_alpha
scan_other-symbol c s h = ground arith

pub scan_other-digit :
    (c : ℕ) (s : Tokenizer)
    → is_digit c ≡ true
    → (c == b'0') ≡ false
    → scan_other c s ≡ consume_number s
unfolding scan_other is_alpha is_digit
scan_other-digit c s h k = ground arith

Separated-Stops :
    (test : ℕ → Bool) {rest : Bytes} → test b' ' ≡ false → Separated rest → Stops test rest
Separated-Stops test h at_end = tt
Separated-Stops test h (at_space rest) = h

pub Separated-starts :
    (c : ℕ) {rest : Bytes} → (c == b' ') ≡ false → Separated rest → starts c rest ≡ false
Separated-starts c h at_end = refl
Separated-starts c h (at_space rest) = h

-- A symbol followed by a separator.
pub symbol-Yields :
    (s : Tokenizer) (c : ℕ) (cs : Bytes) {rest : Bytes}
    → (is_alpha c || c == b'_') ≡ true
    → all symbol_char cs ≡ true
    → Separated rest
    → Begun s c (cs ++ rest)
    → Yields (resolve_keyword_token_kind (c ∷ cs)) (c ∷ cs) rest (scan_switch c s)
unfolding is_alpha_num
symbol-Yields s c cs {rest} h k sep b =
    let stops = Separated-Stops symbol_char refl sep in
    rw (scan_switch-other c (symbol_start c h) s, scan_other-symbol c s h)
      (rw
        (
          take_while-append symbol_char cs rest k stops,
          drop_while-append symbol_char cs rest k stops,
        )
        at (consume_symbol-Yields s c (cs ++ rest) b))

pub digit_or_underscore-zero : digit_or_underscore 0 ≡ false
unfolding is_digit is_underscore
digit_or_underscore-zero = refl

digit_or_underscore-space : digit_or_underscore b' ' ≡ false
unfolding is_digit is_underscore
digit_or_underscore-space = refl

Separated-first :
    (c : ℕ) {rest : Bytes}
    → (0 == c) ≡ false
    → (b' ' == c) ≡ false
    → Separated rest
    → (first rest == c) ≡ false
Separated-first c z h at_end = z
Separated-first c z h (at_space rest) = h

pub Separated-is_alpha : {rest : Bytes} → Separated rest → is_alpha (first rest) ≡ false
unfolding is_alpha
Separated-is_alpha at_end = refl
Separated-is_alpha (at_space rest) = refl

pub on_match-miss :
    (c : ℕ) (hit miss : Tokenizer → Scanned) {s : Tokenizer} {rest : Bytes}
    → At s rest
    → starts c rest ≡ false
    → on_match c hit miss s ≡ miss s
on_match-miss c hit miss {rest} h e = rw (on_match-starts c hit miss rest h) (rw e)

module _ {s : Tokenizer} {d : ℕ} (ds : Bytes) {rest : Bytes} (h : all digit_or_underscore ds ≡ true)
    (sep : Separated rest) (b : Begun s d (ds ++ rest)) where
  stops : Stops digit_or_underscore rest
  stops = Separated-Stops digit_or_underscore digit_or_underscore-space sep

  digits-step : digits s ≡ step (length ds) s
  digits-step =
      ap (λ (p : Tokenizer × Bool). p.0)
        (advance_while-take_while digit_or_underscore (ds ++ rest) b.left digit_or_underscore-zero)
      ∙ ap (λ w. step (length w) s) (take_while-append digit_or_underscore ds rest h stops)

  digits-At : At (step (length ds) s) rest
  digits-At =
      rw
        (
          take_while-append digit_or_underscore ds rest h stops,
          drop_while-append digit_or_underscore ds rest h stops,
        )
        at (step-At_many digit_or_underscore (ds ++ rest) b.left)

  not_point : (first rest == b'.') ≡ false
  not_point = Separated-first b'.' refl refl sep

  scan_digits-step : scan_digits s ≡ (step (length ds) s, token_int)
  unfolding scan_digits
  scan_digits-step = rw (digits-step, peek-first rest digits-At, not_point)

  literal-digits :
      (let t = step (length ds) s in
        substr t (t.start_position - 1) (t.current_position - t.start_position + 1))
      ≡ d ∷ ds
  literal-digits =
      rw (take_while-append digit_or_underscore ds rest h stops) at
        (substr-take_while digit_or_underscore b)

  after_digits-Yields :
      Yields token_int
        (remove_underscores (d ∷ ds))
        rest
        (after_digits (step (length ds) s, token_int))
  unfolding after_digits after_signed no_suffix number_token
  after_digits-Yields = rw (on_match-miss b'i' _ _ digits-At (Separated-starts b'i' refl sep)) (
      rw (on_match-miss b'u' _ _ digits-At (Separated-starts b'u' refl sep)) (
        rw (on_match-miss b'f' _ _ digits-At (Separated-starts b'f' refl sep)) (
          rw (peek-first rest digits-At, Separated-is_alpha sep, literal-digits)
            (build_token-Yields token_int _ digits-At))))

  consume_number-Yields : Yields token_int (remove_underscores (d ∷ ds)) rest (consume_number s)
  unfolding consume_number
  consume_number-Yields = rw scan_digits-step after_digits-Yields

pub scan_other-zero : (c : ℕ) (s : Tokenizer) → (c == b'0') ≡ true → scan_other c s ≡ scan_zero s
unfolding scan_other is_alpha is_digit
scan_other-zero c s h = ground arith

digits-starts :
    (c : ℕ) (ds : Bytes) {rest : Bytes}
    → digit_or_underscore c ≡ false
    → (c == b' ') ≡ false
    → all digit_or_underscore ds ≡ true
    → Separated rest
    → starts c (ds ++ rest) ≡ false
digits-starts c [] h k a sep = Separated-starts c k sep
digits-starts c (d ∷ ds) h k a sep = elim (Bool-cases (c == d)) [
  | inl e ↦ let same : c ≡ d = ground arith in absurd (ground (arith, ap digit_or_underscore same))
  | inr e ↦ e
]

scan_zero-Yields :
    {s : Tokenizer} {d : ℕ} (ds : Bytes) {rest : Bytes}
    → all digit_or_underscore ds ≡ true
    → Separated rest
    → Begun s d (ds ++ rest)
    → Yields token_int (remove_underscores (d ∷ ds)) rest (scan_zero s)
unfolding scan_zero is_digit is_underscore
scan_zero-Yields ds k sep b =
    rw (on_match-miss b'x' _ _ b.left (digits-starts b'x' ds refl refl k sep)) (
      rw (on_match-miss b'b' _ _ b.left (digits-starts b'b' ds refl refl k sep)) (
        rw (on_match-miss b'o' _ _ b.left (digits-starts b'o' ds refl refl k sep))
          (consume_number-Yields ds k sep b)))

-- A decimal literal followed by a separator: its digits, without the underscores.
pub number-Yields :
    (s : Tokenizer) (d : ℕ) (ds : Bytes) {rest : Bytes}
    → is_digit d ≡ true
    → all digit_or_underscore ds ≡ true
    → Separated rest
    → Begun s d (ds ++ rest)
    → Yields token_int (remove_underscores (d ∷ ds)) rest (scan_switch d s)
number-Yields s d ds {rest} h k sep b =
    rw (scan_switch-other d (digit_start d h) s) (elim (Bool-cases (d == b'0')) [
      | inl nought ↦ rw (scan_other-zero d s nought) (scan_zero-Yields ds k sep b)
      | inr other ↦ rw (scan_other-digit d s h other) (consume_number-Yields ds k sep b)
    ])
