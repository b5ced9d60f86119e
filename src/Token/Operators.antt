-- ===== src/Token/Operators.antt =====
-- include/amun_token.hpp: the sets and the maps of operators, and the tests on tokens over them. A
-- constant set is its membership test; a map gives `none` for a key that it does not hold.
use amun.Prelude.{Bool, true, false, ◌||◌, Option, none, some, List, [], ◌∷◌}
use amun.Prelude.Text.{Bytes, codes}
use amun.Token.{
  TokenKind, kind_eq, Token, token_and, token_and_and, token_and_equal, token_bang,
  token_bang_equal, token_equal, token_equal_equal, token_float, token_float32, token_float64,
  token_greater, token_greater_equal, token_left_shift, token_left_shift_equal, token_minus,
  token_minus_equal, token_minus_minus, token_not, token_or, token_or_equal, token_or_or,
  token_parcent_equal, token_percent, token_plus, token_plus_equal, token_plus_plus,
  token_right_shift, token_right_shift_equal, token_slash, token_slash_equal, token_smaller,
  token_smaller_equal, token_star, token_star_equal, token_xor, token_xor_equal,
}

unfoldable pub unary_operators : TokenKind → Bool
unary_operators token_minus = true
unary_operators token_bang = true
unary_operators token_star = true
unary_operators token_and = true
unary_operators token_not = true
unary_operators _ = false

unfoldable pub assignments_operators : TokenKind → Bool
assignments_operators token_equal = true
assignments_operators token_plus_equal = true
assignments_operators token_minus_equal = true
assignments_operators token_star_equal = true
assignments_operators token_slash_equal = true
assignments_operators token_parcent_equal = true
assignments_operators token_or_equal = true
assignments_operators token_and_equal = true
assignments_operators token_xor_equal = true
assignments_operators token_right_shift_equal = true
assignments_operators token_left_shift_equal = true
assignments_operators _ = false

unfoldable pub overloading_prefix_operators : TokenKind → Bool
overloading_prefix_operators token_not = true
overloading_prefix_operators token_bang = true
overloading_prefix_operators token_minus = true
overloading_prefix_operators token_plus_plus = true
overloading_prefix_operators token_minus_minus = true
overloading_prefix_operators _ = false

unfoldable pub overloading_infix_operators : TokenKind → Bool
overloading_infix_operators token_plus = true
overloading_infix_operators token_minus = true
overloading_infix_operators token_star = true
overloading_infix_operators token_slash = true
overloading_infix_operators token_percent = true
overloading_infix_operators token_equal_equal = true
overloading_infix_operators token_bang_equal = true
overloading_infix_operators token_greater = true
overloading_infix_operators token_greater_equal = true
overloading_infix_operators token_smaller = true
overloading_infix_operators token_smaller_equal = true
overloading_infix_operators token_and = true
overloading_infix_operators token_or = true
overloading_infix_operators token_xor = true
overloading_infix_operators token_and_and = true
overloading_infix_operators token_or_or = true
overloading_infix_operators token_right_shift = true
overloading_infix_operators token_left_shift = true
overloading_infix_operators _ = false

unfoldable pub overloading_postfix_operators : TokenKind → Bool
overloading_postfix_operators token_plus_plus = true
overloading_postfix_operators token_minus_minus = true
overloading_postfix_operators _ = false

unfoldable pub comparisons_operators : TokenKind → Bool
comparisons_operators token_equal = true
comparisons_operators token_equal_equal = true
comparisons_operators token_bang_equal = true
comparisons_operators token_greater = true
comparisons_operators token_greater_equal = true
comparisons_operators token_smaller = true
comparisons_operators token_smaller_equal = true
comparisons_operators _ = false

unfoldable pub assignments_binary_operators : TokenKind → Option TokenKind
assignments_binary_operators token_plus_equal = some token_plus
assignments_binary_operators token_minus_equal = some token_minus
assignments_binary_operators token_star_equal = some token_star
assignments_binary_operators token_slash_equal = some token_slash
assignments_binary_operators token_parcent_equal = some token_percent
assignments_binary_operators _ = none

unfoldable pub assignments_bitwise_operators : TokenKind → Option TokenKind
assignments_bitwise_operators token_or_equal = some token_or
assignments_bitwise_operators token_and_equal = some token_and
assignments_bitwise_operators token_xor_equal = some token_xor
assignments_bitwise_operators token_right_shift_equal = some token_right_shift
assignments_bitwise_operators token_left_shift_equal = some token_left_shift
assignments_bitwise_operators _ = none

unfoldable pub overloading_operator_literal : TokenKind → Option Bytes
overloading_operator_literal token_plus = some (codes "plus")
overloading_operator_literal token_minus = some (codes "minus")
overloading_operator_literal token_star = some (codes "star")
overloading_operator_literal token_slash = some (codes "slash")
overloading_operator_literal token_percent = some (codes "percent")
overloading_operator_literal token_bang = some (codes "bang")
overloading_operator_literal token_not = some (codes "not")
overloading_operator_literal token_equal_equal = some (codes "eq_eq")
overloading_operator_literal token_bang_equal = some (codes "not_eq")
overloading_operator_literal token_greater = some (codes "gt")
overloading_operator_literal token_greater_equal = some (codes "gt_eq")
overloading_operator_literal token_smaller = some (codes "lt")
overloading_operator_literal token_smaller_equal = some (codes "lt_eq")
overloading_operator_literal token_and = some (codes "and")
overloading_operator_literal token_or = some (codes "or")
overloading_operator_literal token_xor = some (codes "xor")
overloading_operator_literal token_and_and = some (codes "and_and")
overloading_operator_literal token_or_or = some (codes "or_or")
overloading_operator_literal token_right_shift = some (codes "rsh")
overloading_operator_literal token_left_shift = some (codes "lsh")
overloading_operator_literal token_plus_plus = some (codes "plus_plus")
overloading_operator_literal token_minus_minus = some (codes "minus_minus")
overloading_operator_literal _ = none

pub record TwoTokensOperator : Type 0 where
  pub first : TokenKind
  pub second : TokenKind
  pub both : TokenKind

abbrev pair : TokenKind → TokenKind → TokenKind → TwoTokensOperator
pair first second both = record { first = first; second = second; both = both }

unfoldable pub two_tokens_operators : List TwoTokensOperator
two_tokens_operators =
    pair token_plus token_plus token_plus_plus
    ∷ pair token_greater token_greater token_right_shift
    ∷ pair token_smaller token_smaller token_left_shift
    ∷ pair token_equal token_equal token_equal_equal
    ∷ pair token_bang token_equal token_bang_equal
    ∷ pair token_greater token_equal token_greater_equal
    ∷ pair token_smaller token_equal token_smaller_equal
    ∷ pair token_plus token_equal token_plus_equal
    ∷ pair token_minus token_equal token_minus_equal
    ∷ pair token_star token_equal token_star_equal
    ∷ pair token_slash token_equal token_slash_equal
    ∷ pair token_percent token_equal token_parcent_equal
    ∷ pair token_or token_equal token_or_equal
    ∷ pair token_and token_equal token_and_equal
    ∷ pair token_xor token_equal token_xor_equal
    ∷ []

unfoldable pub is_supported_overloading_operator : TokenKind → Bool
unfolding overloading_operator_literal
is_supported_overloading_operator kind = elim (overloading_operator_literal kind) [
  | some _ ↦ true
  | none ↦ false
]

abbrev pub is_overloading_prefix_operator : TokenKind → Bool
is_overloading_prefix_operator = overloading_prefix_operators

abbrev pub is_overloading_infix_operator : TokenKind → Bool
is_overloading_infix_operator = overloading_infix_operators

abbrev pub is_overloading_postfix_operator : TokenKind → Bool
is_overloading_postfix_operator = overloading_postfix_operators

abbrev pub is_assignments_operator_token : Token → Bool
is_assignments_operator_token token = assignments_operators token.kind

abbrev pub is_unary_operator_token : Token → Bool
is_unary_operator_token token = unary_operators token.kind

abbrev pub is_float_number_token : Token → Bool
is_float_number_token token =
    kind_eq token.kind token_float
    || kind_eq token.kind token_float32
    || kind_eq token.kind token_float64
