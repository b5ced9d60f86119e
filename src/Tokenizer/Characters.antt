-- ===== src/Tokenizer/Characters.antt =====
-- Character literals (src/amun_tokenizer.cpp, `consume_character`).
use amun.Prelude.{ℕ, ◌≡◌, refl, false, ◌==◌, [], ◌∷◌, ◌++◌}
use amun.Prelude.Text.{Bytes, codes}
use amun.Token.{token_character, token_invalid}
use amun.Tokenizer.{Tokenizer, build_token}
use amun.Tokenizer.View.{At, peek-cons, advance-cons, step-At}
use amun.Tokenizer.Begun.{Yields, build_token-Yields}
use amun.Tokenizer.Strings.{escape_letter, escaped, ReadsOne, consume-ReadsOne}
use amun.Tokenizer.Chars.{is_alpha}
use amun.Tokenizer.Scan.{
  scan_switch, switch_one, switch_two, switch_assign, one_character, two_characters,
  assign_or_twice, scan_other,
}
use amun.Tokenizer.Text.{minus_one, consume_character, consume_one_character, character_token}

character_token-Yields :
    (c : ℕ) (rest : Bytes) (r : Tokenizer × ℕ)
    → (c == minus_one) ≡ false
    → (c == b'\'') ≡ false
    → ReadsOne c (b'\'' ∷ rest) r
    → Yields token_character (c ∷ []) rest (character_token r)
unfolding character_token
character_token-Yields c rest (s, d) h k one =
    let same : d ≡ c = one.value in
    rw (same, h, k, peek-cons one.left, advance-cons one.left)
      (build_token-Yields token_character (c ∷ []) (step-At one.left))

-- Reading a character literal gives back the byte that was written, escaped where it has a letter,
-- unless it is the quote itself or the byte that stands for an error.
pub consume_character-escaped :
    (s : Tokenizer) (c : ℕ) (rest : Bytes)
    → (c == minus_one) ≡ false
    → (c == b'\'') ≡ false
    → At s (escaped c (escape_letter c) ++ b'\'' ∷ rest)
    → Yields token_character (c ∷ []) rest (consume_character s)
unfolding consume_character
consume_character-escaped s c rest h k left =
    character_token-Yields c rest (consume_one_character s) h k
      (consume-ReadsOne c _ (b'\'' ∷ rest) refl left)

quote_rejected :
    (r : Tokenizer × ℕ)
    → r.1 ≡ b'\''
    → ((character_token r).1.kind ≡ token_invalid)
      × ((character_token r).1.literal ≡ codes "empty character literal")
unfolding character_token build_token
quote_rejected (s, c) e = rw e (refl, refl)

-- The escaped quote is a character literal that is never accepted: the message says that it is empty.
pub consume_character-quote :
    (s : Tokenizer) (rest : Bytes)
    → At s (codes "\\'" ++ rest)
    → ((consume_character s).1.kind ≡ token_invalid)
      × ((consume_character s).1.literal ≡ codes "empty character literal")
unfolding consume_character escape_letter
consume_character-quote s rest left =
    quote_rejected (consume_one_character s) (consume-ReadsOne b'\'' _ rest refl left).value

-- The switch on the opening quote.
pub character-Yields :
    (s : Tokenizer) (c : ℕ) (rest : Bytes)
    → (c == minus_one) ≡ false
    → (c == b'\'') ≡ false
    → At s (escaped c (escape_letter c) ++ b'\'' ∷ rest)
    → Yields token_character (c ∷ []) rest (scan_switch b'\'' s)
unfolding scan_switch switch_one switch_two switch_assign one_character two_characters
    assign_or_twice scan_other is_alpha
character-Yields s c rest h k left = consume_character-escaped s c rest h k left
