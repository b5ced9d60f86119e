-- ===== src/Token/Tests.antt =====
-- The laws of the tables of operators on single kinds.
use amun.Prelude.{◌≡◌, ◌||◌, ◌&&◌, true, false}
use amun.Token.{token_minus, token_parcent_equal}
use amun.Token.Operators.{
  assignments_operators, assignments_binary_operators, assignments_bitwise_operators,
  is_supported_overloading_operator, is_overloading_prefix_operator, is_overloading_infix_operator,
  is_overloading_postfix_operator,
}
use amun.Token.Laws.{
  is_some, is_supported_overloading_operator-positions, assignments_operators-operators,
}

is_supported_overloading_operator-positions_example :
    is_supported_overloading_operator token_minus ≡ (
      is_overloading_prefix_operator token_minus
      || is_overloading_infix_operator token_minus
      || is_overloading_postfix_operator token_minus)
is_supported_overloading_operator-positions_example =
    is_supported_overloading_operator-positions token_minus

assignments_operators-operators_example :
    (assignments_operators token_parcent_equal ≡ true)
    × ((is_some (assignments_binary_operators token_parcent_equal)
          && is_some (assignments_bitwise_operators token_parcent_equal))
        ≡ false)
unfolding assignments_binary_operators assignments_bitwise_operators
assignments_operators-operators_example = assignments_operators-operators token_parcent_equal
