-- ===== src/Tokenizer/Symbols.antt =====
-- A symbol is read whole, and is a keyword or an identifier (src/amun_tokenizer.cpp).
use amun.Prelude.{
  ℕ, suc, ◌+◌, ◌-◌, ◌≡◌, refl, ap, Bool, false, arith, ◌∷◌, length, take_while, drop_while,
  take-take_while,
}
use amun.Prelude.Text.{Bytes}
use amun.Tokenizer.{Tokenizer, step}
use amun.Tokenizer.View.Spans.{advance_while-take_while, step-At_many}
use amun.Tokenizer.Begun.{Begun, Yields, build_token-Yields}
use amun.Tokenizer.Keyword.{resolve_keyword_token_kind}
use amun.Tokenizer.Chars.{is_alpha_num}
use amun.Tokenizer.Number.{substr}
use amun.Tokenizer.Text.{consume_symbol, symbol_char}

-- The bytes from the start of the token up to where a loop over `test` stops.
pub substr-take_while :
    (test : ℕ → Bool) {s : Tokenizer} {c : ℕ} {rest : Bytes}
    → Begun s c rest
    → (let t = step (length (take_while test rest)) s in
        substr t (t.start_position - 1) (t.current_position - t.start_position + 1))
      ≡ c ∷ take_while test rest
substr-take_while test {s} {c} {rest} h =
    let n = length (take_while test rest) in
    let e : s.current_position + n - s.start_position + 1 ≡ suc n = omega (arith, h.same) in
    rw (e, h.first) (ap (◌∷◌ c) (take-take_while test rest))

symbol_char-zero : symbol_char 0 ≡ false
unfolding is_alpha_num
symbol_char-zero = refl

-- A symbol takes all the letters, digits and underscores that follow its first character; its kind
-- is the one that the keyword table gives for the whole text.
pub consume_symbol-Yields :
    (s : Tokenizer) (c : ℕ) (rest : Bytes)
    → Begun s c rest
    → let word = c ∷ take_while symbol_char rest in
      Yields (resolve_keyword_token_kind word) word (drop_while symbol_char rest) (consume_symbol s)
unfolding consume_symbol
consume_symbol-Yields s c rest h =
    rw
      (
        advance_while-take_while symbol_char rest h.left symbol_char-zero,
        substr-take_while symbol_char h,
      )
      (build_token-Yields _ _ (step-At_many symbol_char rest h.left))
