-- ===== src/Token.antt =====
-- include/amun_token.hpp: the kinds of tokens, their spans, and the token itself. A C++ enum is
-- compared by its value, which `kind_value` gives; texts are lists of bytes.
pub mod Literals
pub mod Operators
pub mod Laws
mod Tests
use amun.Prelude.{ℕ, Bool, ◌==◌}
use amun.Prelude.Text.{Bytes}

pub data TokenKind : Type 0 where
  token_load token_import token_var token_const token_enum token_type token_struct token_fun :
      TokenKind
  token_operator token_return token_if token_else token_for token_while token_switch : TokenKind
  token_cast token_defer token_break token_continue token_type_size token_type_allign : TokenKind
  token_value_size token_true token_false token_null token_undefined token_varargs token_dot :
      TokenKind
  token_dot_dot token_comma token_colon token_colon_colon token_semicolon token_at : TokenKind
  token_plus token_minus token_star token_slash token_percent token_or token_or_or token_and :
      TokenKind
  token_and_and token_xor token_not token_equal token_equal_equal token_bang : TokenKind
  token_bang_equal token_greater token_greater_equal token_smaller token_smaller_equal : TokenKind
  token_right_shift token_right_shift_equal token_left_shift token_left_shift_equal : TokenKind
  token_plus_equal token_minus_equal token_star_equal token_slash_equal token_parcent_equal :
      TokenKind
  token_or_equal token_and_equal token_xor_equal token_plus_plus token_minus_minus : TokenKind
  token_right_arrow token_open_paren token_close_paren token_open_bracket : TokenKind
  token_close_bracket token_open_brace token_close_brace token_identifier token_string : TokenKind
  token_character token_int token_int1 token_int8 token_int16 token_int32 token_int64 : TokenKind
  token_uint8 token_uint16 token_uint32 token_uint64 token_float token_float32 token_float64 :
      TokenKind
  token_invalid token_end_of_file : TokenKind

abbrev pub kind_value : TokenKind → ℕ
kind_value token_load = 0
kind_value token_import = 1
kind_value token_var = 2
kind_value token_const = 3
kind_value token_enum = 4
kind_value token_type = 5
kind_value token_struct = 6
kind_value token_fun = 7
kind_value token_operator = 8
kind_value token_return = 9
kind_value token_if = 10
kind_value token_else = 11
kind_value token_for = 12
kind_value token_while = 13
kind_value token_switch = 14
kind_value token_cast = 15
kind_value token_defer = 16
kind_value token_break = 17
kind_value token_continue = 18
kind_value token_type_size = 19
kind_value token_type_allign = 20
kind_value token_value_size = 21
kind_value token_true = 22
kind_value token_false = 23
kind_value token_null = 24
kind_value token_undefined = 25
kind_value token_varargs = 26
kind_value token_dot = 27
kind_value token_dot_dot = 28
kind_value token_comma = 29
kind_value token_colon = 30
kind_value token_colon_colon = 31
kind_value token_semicolon = 32
kind_value token_at = 33
kind_value token_plus = 34
kind_value token_minus = 35
kind_value token_star = 36
kind_value token_slash = 37
kind_value token_percent = 38
kind_value token_or = 39
kind_value token_or_or = 40
kind_value token_and = 41
kind_value token_and_and = 42
kind_value token_xor = 43
kind_value token_not = 44
kind_value token_equal = 45
kind_value token_equal_equal = 46
kind_value token_bang = 47
kind_value token_bang_equal = 48
kind_value token_greater = 49
kind_value token_greater_equal = 50
kind_value token_smaller = 51
kind_value token_smaller_equal = 52
kind_value token_right_shift = 53
kind_value token_right_shift_equal = 54
kind_value token_left_shift = 55
kind_value token_left_shift_equal = 56
kind_value token_plus_equal = 57
kind_value token_minus_equal = 58
kind_value token_star_equal = 59
kind_value token_slash_equal = 60
kind_value token_parcent_equal = 61
kind_value token_or_equal = 62
kind_value token_and_equal = 63
kind_value token_xor_equal = 64
kind_value token_plus_plus = 65
kind_value token_minus_minus = 66
kind_value token_right_arrow = 67
kind_value token_open_paren = 68
kind_value token_close_paren = 69
kind_value token_open_bracket = 70
kind_value token_close_bracket = 71
kind_value token_open_brace = 72
kind_value token_close_brace = 73
kind_value token_identifier = 74
kind_value token_string = 75
kind_value token_character = 76
kind_value token_int = 77
kind_value token_int1 = 78
kind_value token_int8 = 79
kind_value token_int16 = 80
kind_value token_int32 = 81
kind_value token_int64 = 82
kind_value token_uint8 = 83
kind_value token_uint16 = 84
kind_value token_uint32 = 85
kind_value token_uint64 = 86
kind_value token_float = 87
kind_value token_float32 = 88
kind_value token_float64 = 89
kind_value token_invalid = 90
kind_value token_end_of_file = 91

abbrev pub kind_eq : TokenKind → TokenKind → Bool
kind_eq a b = kind_value a == kind_value b

pub record TokenSpan : Type 0 where
  pub file_id : ℕ
  pub line_number : ℕ
  pub column_start : ℕ
  pub column_end : ℕ

pub record Token : Type 0 where
  pub kind : TokenKind
  pub position : TokenSpan
  pub literal : Bytes
