-- ===== src/Tokenizer/Keyword/Reserved.antt =====
-- `resolve_keyword_token_kind` (src/amun_tokenizer.cpp), which compares by length and byte after byte,
-- against one list of the reserved words.
use amun.Prelude.{
  ℕ, suc, zero, ◌≤◌, ◌<◌, ◌≡◌, refl, sym, ap, ◌∙◌, Bool, true, false, ◌&&◌, ◌==◌, ltb,
  if◌then◌else◌, List, [], ◌∷◌, length, arith, Bool-cases, inl, inr, ==_iff,
}
use amun.Prelude.Text.{Bytes, codes, equal, equal_iff}
use amun.Token.{TokenKind, token_identifier}
use amun.Token.{
  token_if, token_fun, token_var, token_for, token_load, token_null, token_true, token_cast,
  token_else, token_enum, token_type, token_while, token_defer, token_false, token_break,
  token_const, token_import, token_struct, token_return, token_switch, token_varargs,
  token_continue, token_operator, token_type_size, token_undefined, token_value_size,
  token_type_allign,
}
use amun.Tokenizer.Keyword.{Row, str_equals, first_equal, keywords_of, resolve_keyword_token_kind}

-- The reserved words and their kinds.
abbrev pub reserved : List (Bytes × TokenKind)
reserved =
    (codes "if", token_if)
    ∷ (codes "fun", token_fun)
    ∷ (codes "var", token_var)
    ∷ (codes "for", token_for)
    ∷ (codes "load", token_load)
    ∷ (codes "null", token_null)
    ∷ (codes "true", token_true)
    ∷ (codes "cast", token_cast)
    ∷ (codes "else", token_else)
    ∷ (codes "enum", token_enum)
    ∷ (codes "type", token_type)
    ∷ (codes "while", token_while)
    ∷ (codes "defer", token_defer)
    ∷ (codes "false", token_false)
    ∷ (codes "break", token_break)
    ∷ (codes "const", token_const)
    ∷ (codes "import", token_import)
    ∷ (codes "struct", token_struct)
    ∷ (codes "return", token_return)
    ∷ (codes "switch", token_switch)
    ∷ (codes "varargs", token_varargs)
    ∷ (codes "continue", token_continue)
    ∷ (codes "operator", token_operator)
    ∷ (codes "type_size", token_type_size)
    ∷ (codes "undefined", token_undefined)
    ∷ (codes "value_size", token_value_size)
    ∷ (codes "type_allign", token_type_allign)
    ∷ []

-- The kind of a word in a list; a word that is not in it is an identifier.
abbrev pub kind_in : List (Bytes × TokenKind) → Bytes → TokenKind
kind_in [] word = token_identifier
kind_in ((w, kind) ∷ row) word = if equal w word then kind else kind_in row word

str_equals-cons :
    (n x y : ℕ) (a b : Bytes) → str_equals (suc n) (x ∷ a) (y ∷ b) ≡ (x == y && str_equals n a b)
unfolding str_equals
str_equals-cons zero x y a b = ground arith
str_equals-cons (suc n) x y a b = ground (arith, str_equals-cons n x y a b)

str_equals-equal : (a b : Bytes) → length a ≡ length b → str_equals (length a) a b ≡ equal a b
unfolding str_equals equal
str_equals-equal [] [] l = refl
str_equals-equal [] (y ∷ b) l = absurd (omega arith)
str_equals-equal (x ∷ a) [] l = absurd (omega arith)
str_equals-equal (x ∷ a) (y ∷ b) l =
    str_equals-cons (length a) x y a b ∙ ap (◌&&◌ (x == y)) (str_equals-equal a b (omega arith))

abbrev by_length : ℕ → Row → Row
by_length n [] = []
by_length n ((w, kind) ∷ row) =
    if length w == n then (w, kind) ∷ by_length n row else by_length n row

equal-length : (a b : Bytes) → (length a == length b) ≡ false → equal a b ≡ false
equal-length a b h = elim (Bool-cases (equal a b)) [
  | inl same ↦
      sym (cc ((==_iff (length a) (length b)).1 (ap length ((equal_iff a b).0 same)), h, same))
  | inr apart ↦ apart
]

first_equal-kind_in :
    (row : Row) (word : Bytes)
    → first_equal (length word) (by_length (length word) row) word ≡ kind_in row word
unfolding first_equal
first_equal-kind_in [] word = refl
first_equal-kind_in ((w, kind) ∷ row) word = elim (Bool-cases (length w == length word)) [
  | inl same ↦
      let l : length w ≡ length word = (==_iff (length w) (length word)).0 same in
      let e : str_equals (length word) w word ≡ equal w word =
        ap (λ n. str_equals n w word) (sym l) ∙ str_equals-equal w word l in
      rw (same, e, first_equal-kind_in row word)
  | inr apart ↦ rw (apart, equal-length w word apart, first_equal-kind_in row word)
]

apart : (k n : ℕ) → 11 < n → k ≤ 11 → (n == k) ≡ false
apart k n h l = ground arith

keywords_of-long : (n : ℕ) → 11 < n → keywords_of n ≡ []
keywords_of-long n h = rw (
  apart 2 n h (omega arith),
  apart 3 n h (omega arith),
  apart 4 n h (omega arith),
  apart 5 n h (omega arith),
  apart 6 n h (omega arith),
  apart 7 n h (omega arith),
  apart 8 n h (omega arith),
  apart 9 n h (omega arith),
  apart 10 n h (omega arith),
  apart 11 n h (omega arith),
)

abbrev short : Row → Bool
short [] = true
short ((w, kind) ∷ row) = ltb (length w) 12 && short row

by_length-long : (n : ℕ) (row : Row) → 11 < n → short row ≡ true → by_length n row ≡ []
by_length-long n [] h s = refl
by_length-long n ((w, kind) ∷ row) h s = ground (arith, by_length-long n row h)

by_length-reserved : (n : ℕ) → by_length n reserved ≡ keywords_of n
by_length-reserved zero = refl
by_length-reserved (suc zero) = refl
by_length-reserved (suc (suc zero)) = refl
by_length-reserved (suc (suc (suc zero))) = refl
by_length-reserved (suc (suc (suc (suc zero)))) = refl
by_length-reserved (suc (suc (suc (suc (suc zero))))) = refl
by_length-reserved (suc (suc (suc (suc (suc (suc zero)))))) = refl
by_length-reserved (suc (suc (suc (suc (suc (suc (suc zero))))))) = refl
by_length-reserved (suc (suc (suc (suc (suc (suc (suc (suc zero)))))))) = refl
by_length-reserved (suc (suc (suc (suc (suc (suc (suc (suc (suc zero))))))))) = refl
by_length-reserved (suc (suc (suc (suc (suc (suc (suc (suc (suc (suc zero)))))))))) = refl
by_length-reserved (suc (suc (suc (suc (suc (suc (suc (suc (suc (suc (suc zero))))))))))) = refl
by_length-reserved (suc (suc (suc (suc (suc (suc (suc (suc (suc (suc (suc (suc n)))))))))))) =
    by_length-long (suc (suc (suc (suc (suc (suc (suc (suc (suc (suc (suc (suc n))))))))))))
      reserved (omega arith) refl
    ∙ sym (
        keywords_of-long (suc (suc (suc (suc (suc (suc (suc (suc (suc (suc (suc (suc n))))))))))))
          (omega arith))

-- Every word resolves to the kind of the reserved word that it is, and any other word, however long,
-- to an identifier.
pub resolve_keyword_token_kind-reserved :
    (word : Bytes) → resolve_keyword_token_kind word ≡ kind_in reserved word
unfolding resolve_keyword_token_kind
resolve_keyword_token_kind-reserved word =
    ap (λ row. first_equal (length word) row word) (sym (by_length-reserved (length word)))
    ∙ first_equal-kind_in reserved word
