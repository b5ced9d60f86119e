-- ===== src/Types/Limits.antt =====
-- include/amun_type.hpp: the widths and the largest values of the kinds of numbers. `none` stands for
-- a kind that the map does not hold.
use amun.Prelude.{
  ℕ, ◌-◌, ◌^◌, ◌≡◌, refl, Option, none, some, ◌&&◌, ltb, if◌then◌else◌, ℤ, pos, negsuc,
}
use amun.Types.{
  AmunType, NumberKind, integer_1, integer_8, integer_16, integer_32, integer_64, u_integer_8,
  u_integer_16, u_integer_32, u_integer_64, float_32, float_64,
}
use amun.Types.Queries.{is_unsigned_integer_type, is_signed_integer_type}
use amun.Token.{
  TokenKind, token_int1, token_int8, token_int16, token_int32, token_int64, token_uint8,
  token_uint16, token_uint32, token_uint64, token_float32, token_float64,
}

unfoldable pub number_kind_width : NumberKind → ℕ
number_kind_width integer_1 = 1
number_kind_width integer_8 = 8
number_kind_width integer_16 = 16
number_kind_width integer_32 = 32
number_kind_width integer_64 = 64
number_kind_width u_integer_8 = 8
number_kind_width u_integer_16 = 16
number_kind_width u_integer_32 = 32
number_kind_width u_integer_64 = 64
number_kind_width float_32 = 32
number_kind_width float_64 = 64

unfoldable pub number_kind_token_kind : NumberKind → TokenKind
number_kind_token_kind integer_1 = token_int1
number_kind_token_kind integer_8 = token_int8
number_kind_token_kind integer_16 = token_int16
number_kind_token_kind integer_32 = token_int32
number_kind_token_kind integer_64 = token_int64
number_kind_token_kind u_integer_8 = token_uint8
number_kind_token_kind u_integer_16 = token_uint16
number_kind_token_kind u_integer_32 = token_uint32
number_kind_token_kind u_integer_64 = token_uint64
number_kind_token_kind float_32 = token_float32
number_kind_token_kind float_64 = token_float64

unfoldable pub integers_kind_max_value : NumberKind → Option ℕ
integers_kind_max_value integer_1 = some 1
integers_kind_max_value integer_8 = some 127
integers_kind_max_value integer_16 = some 32767
integers_kind_max_value integer_32 = some 2147483647
integers_kind_max_value integer_64 = some 9223372036854775807
integers_kind_max_value u_integer_8 = some 255
integers_kind_max_value u_integer_16 = some 65535
integers_kind_max_value u_integer_32 = some 4294967295
integers_kind_max_value u_integer_64 = some 18446744073709551615
integers_kind_max_value float_32 = none
integers_kind_max_value float_64 = none

unfoldable pub integers_kind_min_value : NumberKind → Option ℤ
integers_kind_min_value integer_1 = some (pos 0)
integers_kind_min_value integer_8 = some (negsuc 127)
integers_kind_min_value integer_16 = some (negsuc 32767)
integers_kind_min_value integer_32 = some (negsuc 2147483647)
integers_kind_min_value integer_64 = some (negsuc 9223372036854775807)
integers_kind_min_value u_integer_8 = some (pos 0)
integers_kind_min_value u_integer_16 = some (pos 0)
integers_kind_min_value u_integer_32 = some (pos 0)
integers_kind_min_value u_integer_64 = some (pos 0)
integers_kind_min_value float_32 = none
integers_kind_min_value float_64 = none

-- The two bounds of a kind, as its width and its sign give them.
abbrev pub bounds_of : NumberKind → Option ℤ × Option ℕ
unfolding number_kind_width is_unsigned_integer_type is_signed_integer_type
bounds_of k =
    if is_unsigned_integer_type (AmunType.number k)
    then (some (pos 0), some (2 ^ number_kind_width k - 1))
    else if is_signed_integer_type (AmunType.number k) && ltb 1 (number_kind_width k)
    then (
      some (negsuc (2 ^ (number_kind_width k - 1) - 1)),
      some (2 ^ (number_kind_width k - 1) - 1),
    )
    else if is_signed_integer_type (AmunType.number k)
    then (some (pos 0), some 1)
    else (none, none)

-- The bounds of each kind are those of its width: `0` and `2 ^ w - 1` when it is unsigned,
-- `- 2 ^ (w - 1)` and `2 ^ (w - 1) - 1` when it is signed and wider than one bit; the one-bit
-- integer, which holds the truth values, is `0` or `1`, and a float has no bounds.
pub integers_kind_bounds :
    (k : NumberKind) → (integers_kind_min_value k, integers_kind_max_value k) ≡ bounds_of k
unfolding number_kind_width integers_kind_max_value integers_kind_min_value is_unsigned_integer_type
    is_signed_integer_type
integers_kind_bounds integer_1 = refl
integers_kind_bounds _ = refl
