-- ===== src/Token/Laws.antt =====
-- Laws of the tables of include/amun_token.hpp.
use amun.Prelude.{
  Bool, false, ◌||◌, ◌&&◌, Option, some, none, ◌≡◌, refl, ◌↔◌, true, List, [], ◌∷◌, get_or, ==_iff,
  ap, sym, ◌∙◌,
}
use amun.Token.{TokenKind, kind_value, kind_eq}
use amun.Token.Operators.{
  assignments_operators, assignments_binary_operators, assignments_bitwise_operators,
  overloading_prefix_operators, overloading_infix_operators, overloading_postfix_operators,
  is_supported_overloading_operator, is_overloading_prefix_operator, is_overloading_infix_operator,
  is_overloading_postfix_operator,
}
use amun.Token.{
  token_load, token_import, token_var, token_const, token_enum, token_type, token_struct, token_fun,
  token_operator, token_return, token_if, token_else, token_for, token_while, token_switch,
  token_cast, token_defer, token_break, token_continue, token_type_size, token_type_allign,
  token_value_size, token_true, token_false, token_null, token_undefined, token_varargs, token_dot,
  token_dot_dot, token_comma, token_colon, token_colon_colon, token_semicolon, token_at, token_plus,
  token_minus, token_star, token_slash, token_percent, token_or, token_or_or, token_and,
  token_and_and, token_xor, token_not, token_equal, token_equal_equal, token_bang, token_bang_equal,
  token_greater, token_greater_equal, token_smaller, token_smaller_equal, token_right_shift,
  token_right_shift_equal, token_left_shift, token_left_shift_equal, token_plus_equal,
  token_minus_equal, token_star_equal, token_slash_equal, token_parcent_equal, token_or_equal,
  token_and_equal, token_xor_equal, token_plus_plus, token_minus_minus, token_right_arrow,
  token_open_paren, token_close_paren, token_open_bracket, token_close_bracket, token_open_brace,
  token_close_brace, token_identifier, token_string, token_character, token_int, token_int1,
  token_int8, token_int16, token_int32, token_int64, token_uint8, token_uint16, token_uint32,
  token_uint64, token_float, token_float32, token_float64, token_invalid, token_end_of_file,
}

abbrev pub is_some {ℓ} : {A : Type ℓ} → Option A → Bool
is_some (some a) = true
is_some none = false

abbrev kinds : List TokenKind
kinds =
    token_load ∷ token_import ∷ token_var ∷ token_const ∷ token_enum ∷ token_type ∷ token_struct
    ∷ token_fun ∷ token_operator ∷ token_return ∷ token_if ∷ token_else ∷ token_for ∷ token_while
    ∷ token_switch ∷ token_cast ∷ token_defer ∷ token_break ∷ token_continue ∷ token_type_size
    ∷ token_type_allign ∷ token_value_size ∷ token_true ∷ token_false ∷ token_null ∷ token_undefined
    ∷ token_varargs ∷ token_dot ∷ token_dot_dot ∷ token_comma ∷ token_colon ∷ token_colon_colon
    ∷ token_semicolon ∷ token_at ∷ token_plus ∷ token_minus ∷ token_star ∷ token_slash
    ∷ token_percent ∷ token_or ∷ token_or_or ∷ token_and ∷ token_and_and ∷ token_xor ∷ token_not
    ∷ token_equal ∷ token_equal_equal ∷ token_bang ∷ token_bang_equal ∷ token_greater
    ∷ token_greater_equal ∷ token_smaller ∷ token_smaller_equal ∷ token_right_shift
    ∷ token_right_shift_equal ∷ token_left_shift ∷ token_left_shift_equal ∷ token_plus_equal
    ∷ token_minus_equal ∷ token_star_equal ∷ token_slash_equal ∷ token_parcent_equal
    ∷ token_or_equal ∷ token_and_equal ∷ token_xor_equal ∷ token_plus_plus ∷ token_minus_minus
    ∷ token_right_arrow ∷ token_open_paren ∷ token_close_paren ∷ token_open_bracket
    ∷ token_close_bracket ∷ token_open_brace ∷ token_close_brace ∷ token_identifier ∷ token_string
    ∷ token_character ∷ token_int ∷ token_int1 ∷ token_int8 ∷ token_int16 ∷ token_int32
    ∷ token_int64 ∷ token_uint8 ∷ token_uint16 ∷ token_uint32 ∷ token_uint64 ∷ token_float
    ∷ token_float32 ∷ token_float64 ∷ token_invalid ∷ token_end_of_file ∷ []

get_or-kind_value : (k : TokenKind) → get_or kinds (kind_value k) token_load ≡ k
get_or-kind_value token_load = refl
get_or-kind_value _ = refl

kind_value-injective : (a b : TokenKind) → kind_value a ≡ kind_value b → a ≡ b
kind_value-injective a b e =
    sym (get_or-kind_value a) ∙ ap (λ n. get_or kinds n token_load) e ∙ get_or-kind_value b

-- The test by value decides equality of kinds.
pub kind_eq_iff : (a b : TokenKind) → (kind_eq a b ≡ true) ↔ (a ≡ b)
kind_eq_iff a b = (
  λ h. kind_value-injective a b ((==_iff (kind_value a) (kind_value b)).0 h),
  λ e. (==_iff (kind_value a) (kind_value b)).1 (ap kind_value e),
)

-- An operator can be overloaded, in front of, between or behind operands, exactly when there is a literal
-- for the name of its function.
pub is_supported_overloading_operator-positions :
    (kind : TokenKind)
    → is_supported_overloading_operator kind ≡ (
        is_overloading_prefix_operator kind
        || is_overloading_infix_operator kind
        || is_overloading_postfix_operator kind)
unfolding is_supported_overloading_operator overloading_prefix_operators overloading_infix_operators
    overloading_postfix_operators
is_supported_overloading_operator-positions token_load = refl
is_supported_overloading_operator-positions _ = refl

-- The assignment operators are `=`, and those that a binary or a bitwise operator stands behind; no
-- assignment stands for both.
pub assignments_operators-operators :
    (kind : TokenKind)
    → (assignments_operators kind ≡ (
        kind_eq kind token_equal
        || is_some (assignments_binary_operators kind)
        || is_some (assignments_bitwise_operators kind)))
      × ((is_some (assignments_binary_operators kind)
            && is_some (assignments_bitwise_operators kind))
          ≡ false)
unfolding assignments_operators assignments_binary_operators assignments_bitwise_operators
assignments_operators-operators token_load = (refl, refl)
assignments_operators-operators _ = (refl, refl)
