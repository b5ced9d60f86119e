-- ===== src/Tokenizer/Keyword.antt =====
-- src/amun_tokenizer.cpp: `resolve_keyword_token_kind`, and the comparison macros of
-- include/amun_basic.hpp that it uses.
pub mod Reserved
use amun.Prelude.{
  ℕ, zero, suc, Bool, true, false, ◌&&◌, ◌==◌, if◌then◌else◌, List, [], ◌∷◌, length, get_or,
}
use amun.Prelude.Text.{Bytes, codes}
use amun.Token.{
  TokenKind, token_if, token_fun, token_var, token_for, token_load, token_null, token_true,
  token_cast, token_else, token_enum, token_type, token_while, token_defer, token_false,
  token_break, token_const, token_import, token_struct, token_return, token_switch, token_varargs,
  token_continue, token_operator, token_type_size, token_undefined, token_value_size,
  token_type_allign, token_identifier,
}

-- `strNEquals(first, other)`: `first[i] == other[i]` for each i below n; the text ends in a zero.
unfoldable pub str_equals : ℕ → Bytes → Bytes → Bool
str_equals zero first other = true
str_equals (suc n) first other = str_equals n first other && get_or first n 0 == get_or other n 0

-- One `case` of the switch: the first of the keywords that the text equals.
abbrev pub Row : Type 0
Row = List (Bytes × TokenKind)

unfoldable pub first_equal : ℕ → Row → Bytes → TokenKind
unfolding str_equals
first_equal n [] keyword = token_identifier
first_equal n ((word, kind) ∷ row) keyword =
    if str_equals n word keyword then kind else first_equal n row keyword

-- The keywords of one length, in the order of the code.
abbrev pub keywords_of : ℕ → Row
keywords_of n =
    if n == 2
    then (codes "if", token_if) ∷ []
    else if n == 3
    then (codes "fun", token_fun) ∷ (codes "var", token_var) ∷ (codes "for", token_for) ∷ []
    else if n == 4
    then (codes "load", token_load)
      ∷ (codes "null", token_null)
      ∷ (codes "true", token_true)
      ∷ (codes "cast", token_cast)
      ∷ (codes "else", token_else)
      ∷ (codes "enum", token_enum)
      ∷ (codes "type", token_type)
      ∷ []
    else if n == 5
    then (codes "while", token_while)
      ∷ (codes "defer", token_defer)
      ∷ (codes "false", token_false)
      ∷ (codes "break", token_break)
      ∷ (codes "const", token_const)
      ∷ []
    else if n == 6
    then (codes "import", token_import)
      ∷ (codes "struct", token_struct)
      ∷ (codes "return", token_return)
      ∷ (codes "switch", token_switch)
      ∷ []
    else if n == 7
    then (codes "varargs", token_varargs) ∷ []
    else if n == 8
    then (codes "continue", token_continue) ∷ (codes "operator", token_operator) ∷ []
    else if n == 9
    then (codes "type_size", token_type_size) ∷ (codes "undefined", token_undefined) ∷ []
    else if n == 10
    then (codes "value_size", token_value_size) ∷ []
    else if n == 11
    then (codes "type_allign", token_type_allign) ∷ []
    else []

-- `strlen` is the length: the symbol that is looked up holds no zero byte.
unfoldable pub resolve_keyword_token_kind : Bytes → TokenKind
unfolding first_equal
resolve_keyword_token_kind keyword =
    first_equal (length keyword) (keywords_of (length keyword)) keyword
