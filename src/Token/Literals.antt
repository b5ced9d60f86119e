-- ===== src/Token/Literals.antt =====
-- include/amun_token.hpp: how a kind is spelled in messages. An operator or a keyword is spelled as
-- in the source text. `none` stands for a kind without an entry in the map.
use amun.Prelude.{Option, none, some}
use amun.Prelude.Text.{Bytes, codes}
use amun.Token.{
  TokenKind, token_load, token_import, token_var, token_const, token_fun, token_operator,
  token_enum, token_type, token_struct, token_return, token_if, token_else, token_for, token_while,
  token_switch, token_cast, token_defer, token_true, token_false, token_null, token_undefined,
  token_break, token_continue, token_type_size, token_type_allign, token_value_size, token_varargs,
  token_dot, token_dot_dot, token_comma, token_colon, token_colon_colon, token_semicolon, token_at,
  token_plus, token_minus, token_star, token_slash, token_percent, token_and, token_and_and,
  token_or, token_or_or, token_xor, token_not, token_equal, token_equal_equal, token_bang,
  token_bang_equal, token_greater, token_greater_equal, token_smaller, token_smaller_equal,
  token_right_shift, token_right_shift_equal, token_left_shift, token_left_shift_equal,
  token_plus_equal, token_minus_equal, token_star_equal, token_slash_equal, token_parcent_equal,
  token_plus_plus, token_minus_minus, token_right_arrow, token_open_paren, token_close_paren,
  token_open_bracket, token_close_bracket, token_open_brace, token_close_brace, token_identifier,
  token_string, token_character, token_int, token_int1, token_int8, token_int16, token_int32,
  token_int64, token_uint8, token_uint16, token_uint32, token_uint64, token_float, token_float32,
  token_float64, token_invalid, token_end_of_file,
}

unfoldable pub token_kind_literal : TokenKind → Option Bytes
token_kind_literal token_load = some (codes "load")
token_kind_literal token_import = some (codes "import")
token_kind_literal token_var = some (codes "var")
token_kind_literal token_const = some (codes "const")
token_kind_literal token_fun = some (codes "fun")
token_kind_literal token_operator = some (codes "operator")
token_kind_literal token_enum = some (codes "enum")
token_kind_literal token_type = some (codes "type")
token_kind_literal token_struct = some (codes "struct")
token_kind_literal token_return = some (codes "return")
token_kind_literal token_if = some (codes "if")
token_kind_literal token_else = some (codes "else")
token_kind_literal token_for = some (codes "for")
token_kind_literal token_while = some (codes "while")
token_kind_literal token_switch = some (codes "switch")
token_kind_literal token_cast = some (codes "cast")
token_kind_literal token_defer = some (codes "defer")
token_kind_literal token_true = some (codes "true")
token_kind_literal token_false = some (codes "false")
token_kind_literal token_null = some (codes "null")
token_kind_literal token_undefined = some (codes "undefined")
token_kind_literal token_break = some (codes "break")
token_kind_literal token_continue = some (codes "continue")
token_kind_literal token_type_size = some (codes "type_size")
token_kind_literal token_type_allign = some (codes "type_allign")
token_kind_literal token_value_size = some (codes "value_size")
token_kind_literal token_varargs = some (codes "varargs")
token_kind_literal token_dot = some (codes ".")
token_kind_literal token_dot_dot = some (codes "..")
token_kind_literal token_comma = some (codes ",")
token_kind_literal token_colon = some (codes ":")
token_kind_literal token_colon_colon = some (codes "::")
token_kind_literal token_semicolon = some (codes ";")
token_kind_literal token_at = some (codes "@")
token_kind_literal token_plus = some (codes "+")
token_kind_literal token_minus = some (codes "-")
token_kind_literal token_star = some (codes "*")
token_kind_literal token_slash = some (codes "/")
token_kind_literal token_percent = some (codes "%")
token_kind_literal token_and = some (codes "&")
token_kind_literal token_and_and = some (codes "&&")
token_kind_literal token_or = some (codes "|")
token_kind_literal token_or_or = some (codes "||")
token_kind_literal token_xor = some (codes "^")
token_kind_literal token_not = some (codes "~")
token_kind_literal token_equal = some (codes "=")
token_kind_literal token_equal_equal = some (codes "==")
token_kind_literal token_bang = some (codes "!")
token_kind_literal token_bang_equal = some (codes "!=")
token_kind_literal token_greater = some (codes ">")
token_kind_literal token_greater_equal = some (codes ">=")
token_kind_literal token_smaller = some (codes "<")
token_kind_literal token_smaller_equal = some (codes "<=")
token_kind_literal token_right_shift = some (codes ">>")
token_kind_literal token_right_shift_equal = some (codes ">>=")
token_kind_literal token_left_shift = some (codes "<<")
token_kind_literal token_left_shift_equal = some (codes "<<=")
token_kind_literal token_plus_equal = some (codes "+=")
token_kind_literal token_minus_equal = some (codes "-=")
token_kind_literal token_star_equal = some (codes "*=")
token_kind_literal token_slash_equal = some (codes "/=")
token_kind_literal token_parcent_equal = some (codes "%=")
token_kind_literal token_plus_plus = some (codes "++")
token_kind_literal token_minus_minus = some (codes "--")
token_kind_literal token_right_arrow = some (codes "->")
token_kind_literal token_open_paren = some (codes "(")
token_kind_literal token_close_paren = some (codes ")")
token_kind_literal token_open_bracket = some (codes "[")
token_kind_literal token_close_bracket = some (codes "]")
token_kind_literal token_open_brace = some (codes "{")
token_kind_literal token_close_brace = some (codes "}")
token_kind_literal token_identifier = some (codes "identifier")
token_kind_literal token_string = some (codes "string")
token_kind_literal token_character = some (codes "char")
token_kind_literal token_int = some (codes "int")
token_kind_literal token_int1 = some (codes "int1")
token_kind_literal token_int8 = some (codes "int8")
token_kind_literal token_int16 = some (codes "int16")
token_kind_literal token_int32 = some (codes "int32")
token_kind_literal token_int64 = some (codes "int64")
token_kind_literal token_uint8 = some (codes "uint8")
token_kind_literal token_uint16 = some (codes "uint16")
token_kind_literal token_uint32 = some (codes "uint32")
token_kind_literal token_uint64 = some (codes "uint64")
token_kind_literal token_float = some (codes "float")
token_kind_literal token_float32 = some (codes "float32")
token_kind_literal token_float64 = some (codes "float64")
token_kind_literal token_invalid = some (codes "Invalid")
token_kind_literal token_end_of_file = some (codes "End of the file")
token_kind_literal _ = none
