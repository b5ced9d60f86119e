-- ===== src/Tokenizer/Suffixes/Literals.antt =====
-- A whole number literal with its suffix (src/amun_tokenizer.cpp, `consume_number`).
use amun.Prelude.{
  ℕ, ◌≡◌, refl, ap, ◌∙◌, Bool, true, false, ◌==◌, [], ◌∷◌, ◌++◌, length, take_while,
  take_while-append, drop_while-append, Stops, all, arith, Bool-cases, inl, inr,
}
use amun.Prelude.Text.{Bytes}
use amun.Token.{token_int}
use amun.Tokenizer.{Tokenizer, step}
use amun.Tokenizer.View.{At, first, starts, peek-first}
use amun.Tokenizer.View.Spans.{advance_while-take_while, step-At_many}
use amun.Tokenizer.Begun.{Begun, Yields}
use amun.Tokenizer.Symbols.{substr-take_while}
use amun.Tokenizer.Operators.{Separated}
use amun.Tokenizer.Words.{
  scan_switch-other, digit_start, scan_other-zero, scan_other-digit, digit_or_underscore-zero,
  on_match-miss,
}
use amun.Tokenizer.Chars.{is_digit, is_underscore}
use amun.Tokenizer.Number.{
  remove_underscores, digits, digit_or_underscore, scan_digits, consume_number,
}
use amun.Tokenizer.Scan.{scan_switch, scan_zero}
use amun.Tokenizer.Suffixes.{Suffix, i1, suffix_text, suffix_kind, taken, suffix-Yields}

-- No suffix goes on with the digits, a fraction or a prefix.
letter-plain :
    (x : Suffix) (rest : Bytes)
    → Stops digit_or_underscore (suffix_text x ++ rest)
      × ((first (suffix_text x ++ rest) == b'.') ≡ false)
      × (starts b'x' (suffix_text x ++ rest) ≡ false)
      × (starts b'b' (suffix_text x ++ rest) ≡ false)
      × (starts b'o' (suffix_text x ++ rest) ≡ false)
unfolding is_digit is_underscore
letter-plain i1 rest = (refl, refl, refl, refl, refl)
letter-plain _ rest = (refl, refl, refl, refl, refl)

digits-apart :
    (c : ℕ) (ds rest : Bytes)
    → digit_or_underscore c ≡ false
    → all digit_or_underscore ds ≡ true
    → starts c rest ≡ false
    → starts c (ds ++ rest) ≡ false
digits-apart c [] rest h a e = e
digits-apart c (d ∷ ds) rest h a e = elim (Bool-cases (c == d)) [
  | inl same ↦ let p : c ≡ d = ground arith in absurd (ground (arith, ap digit_or_underscore p))
  | inr apart ↦ apart
]

module _ {s : Tokenizer} {d : ℕ} (ds : Bytes) (x : Suffix) {rest : Bytes}
    (h : all digit_or_underscore ds ≡ true) (sep : Separated rest)
    (b : Begun s d (ds ++ (suffix_text x ++ rest))) where
  span : take_while digit_or_underscore (ds ++ (suffix_text x ++ rest)) ≡ ds
  span = take_while-append digit_or_underscore ds _ h (letter-plain x rest).0

  digits-At : At (step (length ds) s) (suffix_text x ++ rest)
  digits-At =
      rw
        (
          span,
          drop_while-append digit_or_underscore ds (suffix_text x ++ rest) h
              (letter-plain x rest).0,
        )
        at (step-At_many digit_or_underscore (ds ++ (suffix_text x ++ rest)) b.left)

  digits-step : digits s ≡ step (length ds) s
  digits-step =
      ap (λ (p : Tokenizer × Bool). p.0)
        (advance_while-take_while digit_or_underscore _ b.left digit_or_underscore-zero)
      ∙ ap (λ w. step (length w) s) span

  scan_digits-step : scan_digits s ≡ (step (length ds) s, token_int)
  unfolding scan_digits
  scan_digits-step = rw (digits-step, peek-first _ digits-At, (letter-plain x rest).1)

  taken-digits :
      taken (step (length ds) s).current_position (step (length ds) s) ≡ remove_underscores (d ∷ ds)
  taken-digits = ap remove_underscores (rw span at (substr-take_while digit_or_underscore b))

  consume_number-Yields :
      Yields (suffix_kind x) (remove_underscores (d ∷ ds)) rest (consume_number s)
  unfolding consume_number
  consume_number-Yields =
      rw scan_digits-step (rw taken-digits at (suffix-Yields sep token_int x digits-At))

  no_prefix :
      (c : ℕ)
      → digit_or_underscore c ≡ false
      → starts c (suffix_text x ++ rest) ≡ false
      → starts c (ds ++ (suffix_text x ++ rest)) ≡ false
  no_prefix c k e = digits-apart c ds _ k h e

  scan_zero-Yields : Yields (suffix_kind x) (remove_underscores (d ∷ ds)) rest (scan_zero s)
  unfolding scan_zero is_digit is_underscore
  scan_zero-Yields =
      rw (on_match-miss b'x' _ _ b.left (no_prefix b'x' refl (letter-plain x rest).2)) (
        rw (on_match-miss b'b' _ _ b.left (no_prefix b'b' refl (letter-plain x rest).3)) (
          rw (on_match-miss b'o' _ _ b.left (no_prefix b'o' refl (letter-plain x rest).4))
            consume_number-Yields))

-- A decimal literal with one of the eleven suffixes, followed by a separator: the kind is that of the
-- suffix, and the literal its digits, without the underscores and the suffix.
pub suffixed-Yields :
    (s : Tokenizer) (d : ℕ) (ds : Bytes) (x : Suffix) {rest : Bytes}
    → is_digit d ≡ true
    → all digit_or_underscore ds ≡ true
    → Separated rest
    → Begun s d (ds ++ (suffix_text x ++ rest))
    → Yields (suffix_kind x) (remove_underscores (d ∷ ds)) rest (scan_switch d s)
suffixed-Yields s d ds x {rest} h k sep b =
    rw (scan_switch-other d (digit_start d h) s) (elim (Bool-cases (d == b'0')) [
      | inl nought ↦ rw (scan_other-zero d s nought) (scan_zero-Yields ds x k sep b)
      | inr other ↦ rw (scan_other-digit d s h other) (consume_number-Yields ds x k sep b)
    ])
