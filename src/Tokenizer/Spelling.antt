-- ===== src/Tokenizer/Spelling.antt =====
-- The literals of include/amun_token.hpp, which messages print, against what the tokenizer reads.
use amun.Prelude.{
  true, false, ◌||◌, if◌then◌else◌, List, [], ◌∷◌, some, none, ◌≡◌, refl, sym, ap, ◌∙◌, arith,
  Bool-cases, inl, inr,
}
use amun.Prelude.Text.{Bytes, equal, equal_iff}
use amun.Token.{
  TokenKind, kind_eq, token_identifier, token_or_equal, token_and_equal, token_xor_equal, token_dot,
}
use amun.Token.Literals.{token_kind_literal}
use amun.Tokenizer.Keyword.{resolve_keyword_token_kind}
use amun.Tokenizer.Keyword.Reserved.{reserved, kind_in, resolve_keyword_token_kind-reserved}
use amun.Tokenizer.Operators.{operator_text, is_operator}

abbrev AllSpelled : List (Bytes × TokenKind) → Type 0
AllSpelled [] = Unit {0}
AllSpelled ((word, kind) ∷ row) = (token_kind_literal kind ≡ some word) × AllSpelled row

reserved-AllSpelled : AllSpelled reserved
unfolding token_kind_literal
reserved-AllSpelled = (
  refl,
  (
    refl,
    (
      refl,
      (
        refl,
        (
          refl,
          (
            refl,
            (
              refl,
              (
                refl,
                (
                  refl,
                  (
                    refl,
                    (
                      refl,
                      (
                        refl,
                        (
                          refl,
                          (
                            refl,
                            (
                              refl,
                              (
                                refl,
                                (
                                  refl,
                                  (
                                    refl,
                                    (
                                      refl,
                                      (
                                        refl,
                                        (refl, (refl, (refl, (refl, (refl, (refl, (refl, tt))))))),
                                      ),
                                    ),
                                  ),
                                ),
                              ),
                            ),
                          ),
                        ),
                      ),
                    ),
                  ),
                ),
              ),
            ),
          ),
        ),
      ),
    ),
  ),
)

kind_in-spelled :
    (row : List (Bytes × TokenKind)) (word : Bytes)
    → AllSpelled row
    → kind_eq (kind_in row word) token_identifier ≡ false
    → token_kind_literal (kind_in row word) ≡ some word
kind_in-spelled [] word a h = cc
kind_in-spelled ((w, kind) ∷ row) word a h = elim (Bool-cases (equal w word)) [
  | inl same ↦ rw same (a.0 ∙ ap some ((equal_iff w word).0 same))
  | inr apart ↦ rw apart (kind_in-spelled row word a.1 (rw apart at h))
]

-- A word that the tokenizer takes for a keyword is the literal of its kind.
pub token_kind_literal-resolve_keyword_token_kind :
    (word : Bytes)
    → kind_eq (resolve_keyword_token_kind word) token_identifier ≡ false
    → token_kind_literal (resolve_keyword_token_kind word) ≡ some word
token_kind_literal-resolve_keyword_token_kind word h =
    let e = resolve_keyword_token_kind-reserved word in
    ap token_kind_literal e
    ∙ kind_in-spelled reserved word reserved-AllSpelled
        (sym (ap (λ k. kind_eq k token_identifier) e) ∙ h)

-- The literal of an operator is its spelling, but `|=`, `&=` and `^=` have none.
pub token_kind_literal-operator_text :
    (kind : TokenKind)
    → is_operator kind ≡ true
    → token_kind_literal kind ≡ (
        if kind_eq kind token_or_equal
          || kind_eq kind token_and_equal
          || kind_eq kind token_xor_equal
        then none
        else some (operator_text kind))
unfolding token_kind_literal
token_kind_literal-operator_text token_dot h = refl
token_kind_literal-operator_text _ h = ground arith
