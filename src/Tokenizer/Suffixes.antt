-- ===== src/Tokenizer/Suffixes.antt =====
-- Number literals with a suffix for their type (src/amun_tokenizer.cpp, `consume_number`).
pub mod Literals
use amun.Prelude.{
  ℕ, ◌+◌, ◌-◌, ◌≡◌, refl, sym, ap, ◌∙◌, Bool, true, false, ◌==◌, ◌||◌, if◌then◌else◌, List, [], ◌∷◌,
  ◌++◌, length, take_while, drop_while, take_while-append, drop_while-append, Stops, all, arith,
  Bool-cases, inl, inr,
}
use amun.Prelude.Text.{Bytes, codes}
use amun.Token.{
  TokenKind, token_int, token_int1, token_int8, token_int16, token_int32, token_int64, token_uint8,
  token_uint16, token_uint32, token_uint64, token_float32, token_float64,
}
use amun.Tokenizer.{Tokenizer, Scanned, step, peek, on_match, on_both, build_token, remaining}
use amun.Tokenizer.View.{At, first, starts, on_match-starts, peek-first, step-At}
use amun.Tokenizer.View.Spans.{advance_while-take_while, step-At_many}
use amun.Tokenizer.Begun.{Begun, Yields, build_token-Yields}
use amun.Tokenizer.Symbols.{substr-take_while}
use amun.Tokenizer.Operators.{Separated, at_end, at_space}
use amun.Tokenizer.Words.{
  Separated-starts, Separated-is_alpha, digit_or_underscore-zero, on_match-miss,
}
use amun.Tokenizer.Chars.{is_digit, is_underscore, is_alpha}
use amun.Tokenizer.Number.{
  substr, remove_underscores, digits, digit_or_underscore, scan_digits, signed_suffix,
  unsigned_suffix, float_suffix, after_digits, after_signed, no_suffix, number_token,
  consume_number,
}

pub data Suffix : Type 0 where
  i1 i8 i16 i32 i64 u8 u16 u32 u64 f32 f64 : Suffix

abbrev pub suffix_text : Suffix → Bytes
suffix_text i1 = codes "i1"
suffix_text i8 = codes "i8"
suffix_text i16 = codes "i16"
suffix_text i32 = codes "i32"
suffix_text i64 = codes "i64"
suffix_text u8 = codes "u8"
suffix_text u16 = codes "u16"
suffix_text u32 = codes "u32"
suffix_text u64 = codes "u64"
suffix_text f32 = codes "f32"
suffix_text f64 = codes "f64"

abbrev pub suffix_kind : Suffix → TokenKind
suffix_kind i1 = token_int1
suffix_kind i8 = token_int8
suffix_kind i16 = token_int16
suffix_kind i32 = token_int32
suffix_kind i64 = token_int64
suffix_kind u8 = token_uint8
suffix_kind u16 = token_uint16
suffix_kind u32 = token_uint32
suffix_kind u64 = token_uint64
suffix_kind f32 = token_float32
suffix_kind f64 = token_float64

on_match-hit :
    {s : Tokenizer} (c : ℕ) (hit miss : Tokenizer → Scanned) (rest : Bytes)
    → At s (c ∷ rest)
    → starts c (c ∷ rest) ≡ true
    → on_match c hit miss s ≡ hit (step 1 s)
on_match-hit c hit miss rest h e = rw (on_match-starts c hit miss (c ∷ rest) h, e)

module _ {t : Tokenizer} {rest : Bytes} (sep : Separated rest) (end : ℕ) where
  -- Behind the suffix nothing is left of the literal.
  after_signed-plain :
      (kind : TokenKind) → At t rest → after_signed end kind t ≡ number_token end kind t
  unfolding after_signed no_suffix
  after_signed-plain kind h = rw (on_match-miss b'u' _ _ h (Separated-starts b'u' refl sep)) (
      rw (on_match-miss b'f' _ _ h (Separated-starts b'f' refl sep))
        (rw (peek-first rest h, Separated-is_alpha sep)))

  number_token-Yields :
      (kind : TokenKind)
      → At t rest
      → Yields kind
          (remove_underscores (substr t (t.start_position - 1) (end - t.start_position + 1)))
          rest
          (number_token end kind t)
  unfolding number_token
  number_token-Yields kind h = build_token-Yields kind _ h

module _ (next : TokenKind → Tokenizer → Scanned) {t : Tokenizer} (rest : Bytes) where
  signed_1 :
      At t (b'1' ∷ rest)
      → starts b'6' rest ≡ false
      → signed_suffix next t ≡ next token_int1 (step 1 t)
  unfolding signed_suffix
  signed_1 h e = rw (on_match-hit b'1' _ _ _ h refl) (rw (on_match-miss b'6' _ _ (step-At h) e))

  signed_8 : At t (b'8' ∷ rest) → signed_suffix next t ≡ next token_int8 (step 1 t)
  unfolding signed_suffix
  signed_8 h = rw (on_match-miss b'1' _ _ h refl) (rw (on_match-hit b'8' _ _ _ h refl))

  signed_16 :
      At t (b'1' ∷ b'6' ∷ rest) → signed_suffix next t ≡ next token_int16 (step 1 (step 1 t))
  unfolding signed_suffix
  signed_16 h = rw (on_match-hit b'1' _ _ _ h refl) (rw (on_match-hit b'6' _ _ _ (step-At h) refl))

  signed_32 :
      At t (b'3' ∷ b'2' ∷ rest) → signed_suffix next t ≡ next token_int32 (step 1 (step 1 t))
  unfolding signed_suffix
  signed_32 h = rw (on_match-miss b'1' _ _ h refl) (
      rw (on_match-miss b'8' _ _ h refl)
        (rw (on_match-hit b'3' _ _ _ h refl) (rw (on_match-hit b'2' _ _ _ (step-At h) refl))))

  signed_64 :
      At t (b'6' ∷ b'4' ∷ rest) → signed_suffix next t ≡ next token_int64 (step 1 (step 1 t))
  unfolding signed_suffix
  signed_64 h = rw (on_match-miss b'1' _ _ h refl) (
      rw (on_match-miss b'8' _ _ h refl) (
        rw (on_match-miss b'3' _ _ h refl)
          (rw (on_match-hit b'6' _ _ _ h refl) (rw (on_match-hit b'4' _ _ _ (step-At h) refl)))))

  unsigned_8 : At t (b'8' ∷ rest) → unsigned_suffix next t ≡ next token_uint8 (step 1 t)
  unfolding unsigned_suffix
  unsigned_8 h = rw (on_match-miss b'1' _ _ h refl) (rw (on_match-hit b'8' _ _ _ h refl))

  unsigned_16 :
      At t (b'1' ∷ b'6' ∷ rest) → unsigned_suffix next t ≡ next token_uint16 (step 1 (step 1 t))
  unfolding unsigned_suffix
  unsigned_16 h =
      rw (on_match-hit b'1' _ _ _ h refl) (rw (on_match-hit b'6' _ _ _ (step-At h) refl))

  unsigned_32 :
      At t (b'3' ∷ b'2' ∷ rest) → unsigned_suffix next t ≡ next token_uint32 (step 1 (step 1 t))
  unfolding unsigned_suffix
  unsigned_32 h = rw (on_match-miss b'1' _ _ h refl) (
      rw (on_match-miss b'8' _ _ h refl)
        (rw (on_match-hit b'3' _ _ _ h refl) (rw (on_match-hit b'2' _ _ _ (step-At h) refl))))

  unsigned_64 :
      At t (b'6' ∷ b'4' ∷ rest) → unsigned_suffix next t ≡ next token_uint64 (step 1 (step 1 t))
  unfolding unsigned_suffix
  unsigned_64 h = rw (on_match-miss b'1' _ _ h refl) (
      rw (on_match-miss b'8' _ _ h refl) (
        rw (on_match-miss b'3' _ _ h refl)
          (rw (on_match-hit b'6' _ _ _ h refl) (rw (on_match-hit b'4' _ _ _ (step-At h) refl)))))

  float_32_suffix :
      At t (b'3' ∷ b'2' ∷ rest) → float_suffix next t ≡ next token_float32 (step 1 (step 1 t))
  unfolding float_suffix
  float_32_suffix h =
      rw (on_match-hit b'3' _ _ _ h refl) (rw (on_match-hit b'2' _ _ _ (step-At h) refl))

  float_64_suffix :
      At t (b'6' ∷ b'4' ∷ rest) → float_suffix next t ≡ next token_float64 (step 1 (step 1 t))
  unfolding float_suffix
  float_64_suffix h =
      rw (on_match-miss b'3' _ _ h refl)
        (rw (on_match-hit b'6' _ _ _ h refl) (rw (on_match-hit b'4' _ _ _ (step-At h) refl)))

-- The part of the text that the literal takes.
abbrev pub taken : ℕ → Tokenizer → Bytes
taken end t = remove_underscores (substr t (t.start_position - 1) (end - t.start_position + 1))

module _ {t : Tokenizer} (end : ℕ) (kind : TokenKind) (rest : Bytes) where
  after_signed-u :
      At t (b'u' ∷ rest) → after_signed end kind t ≡ unsigned_suffix (number_token end) (step 1 t)
  unfolding after_signed
  after_signed-u h = rw (on_match-hit b'u' _ _ _ h refl)

  after_signed-f :
      At t (b'f' ∷ rest) → after_signed end kind t ≡ float_suffix (number_token end) (step 1 t)
  unfolding after_signed
  after_signed-f h = rw (on_match-miss b'u' _ _ h refl) (rw (on_match-hit b'f' _ _ _ h refl))

module _ {t : Tokenizer} {rest : Bytes} (sep : Separated rest) (kind : TokenKind) where
  pub suffix-Yields :
      (x : Suffix)
      → At t (suffix_text x ++ rest)
      → Yields (suffix_kind x) (taken t.current_position t) rest (after_digits (t, kind))
  unfolding after_digits
  suffix-Yields i1 h = rw (on_match-hit b'i' _ _ _ h refl) (
      rw (signed_1 _ rest (step-At h) (Separated-starts b'6' refl sep)) (
        rw (after_signed-plain sep t.current_position token_int1 (step-At (step-At h)))
          (number_token-Yields sep t.current_position token_int1 (step-At (step-At h)))))
  suffix-Yields i8 h = rw (on_match-hit b'i' _ _ _ h refl) (
      rw (signed_8 _ rest (step-At h)) (
        rw (after_signed-plain sep t.current_position token_int8 (step-At (step-At h)))
          (number_token-Yields sep t.current_position token_int8 (step-At (step-At h)))))
  suffix-Yields i16 h = rw (on_match-hit b'i' _ _ _ h refl) (
      rw (signed_16 _ rest (step-At h)) (
        rw (after_signed-plain sep t.current_position token_int16 (step-At (step-At (step-At h))))
          (number_token-Yields sep t.current_position token_int16 (step-At (step-At (step-At h))))))
  suffix-Yields i32 h = rw (on_match-hit b'i' _ _ _ h refl) (
      rw (signed_32 _ rest (step-At h)) (
        rw (after_signed-plain sep t.current_position token_int32 (step-At (step-At (step-At h))))
          (number_token-Yields sep t.current_position token_int32 (step-At (step-At (step-At h))))))
  suffix-Yields i64 h = rw (on_match-hit b'i' _ _ _ h refl) (
      rw (signed_64 _ rest (step-At h)) (
        rw (after_signed-plain sep t.current_position token_int64 (step-At (step-At (step-At h))))
          (number_token-Yields sep t.current_position token_int64 (step-At (step-At (step-At h))))))
  suffix-Yields u8 h = rw (on_match-miss b'i' _ _ h refl) (
      rw (after_signed-u t.current_position kind _ h) (
        rw (unsigned_8 _ rest (step-At h))
          (number_token-Yields sep t.current_position token_uint8 (step-At (step-At h)))))
  suffix-Yields u16 h = rw (on_match-miss b'i' _ _ h refl) (
      rw (after_signed-u t.current_position kind _ h) (
        rw (unsigned_16 _ rest (step-At h)) (
          number_token-Yields sep t.current_position token_uint16 (step-At (step-At (step-At h))))))
  suffix-Yields u32 h = rw (on_match-miss b'i' _ _ h refl) (
      rw (after_signed-u t.current_position kind _ h) (
        rw (unsigned_32 _ rest (step-At h)) (
          number_token-Yields sep t.current_position token_uint32 (step-At (step-At (step-At h))))))
  suffix-Yields u64 h = rw (on_match-miss b'i' _ _ h refl) (
      rw (after_signed-u t.current_position kind _ h) (
        rw (unsigned_64 _ rest (step-At h)) (
          number_token-Yields sep t.current_position token_uint64 (step-At (step-At (step-At h))))))
  suffix-Yields f32 h = rw (on_match-miss b'i' _ _ h refl) (
      rw (after_signed-f t.current_position kind _ h) (
        rw (float_32_suffix _ rest (step-At h)) (
          number_token-Yields sep t.current_position token_float32
            (step-At (step-At (step-At h))))))
  suffix-Yields f64 h = rw (on_match-miss b'i' _ _ h refl) (
      rw (after_signed-f t.current_position kind _ h) (
        rw (float_64_suffix _ rest (step-At h)) (
          number_token-Yields sep t.current_position token_float64
            (step-At (step-At (step-At h))))))
