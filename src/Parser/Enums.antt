-- ===== src/Parser/Enums.antt =====
-- src/amun_parser.cpp: the declaration of an enumeration.
use amun.Prelude.{ℕ, suc, ◌+◌, ◌==◌, Bool, true, false, ◌||◌, List, [], ◌∷◌, ◌++◌, ℤ, pos, negsuc}
use amun.Prelude.Text.{Bytes, codes}
use amun.Prelude.Decimal.{to_string}
use amun.Token.{Token}
use amun.Token.{
  token_comma, token_open_brace, token_close_brace, token_identifier, token_equal, token_colon,
  token_enum,
}
use amun.Token.Operators.{is_float_number_token}
use amun.ScopedMap.{contains, put}
use amun.Types.{AmunType, integer_32}
use amun.Ast.{Statement}
use amun.Ast.{enum_declaration}
use amun.Parser.{Parse, pure, done, ◌>>=◌, ◌>>◌, value, report_error, modify_context}
use amun.Parser.Reading.{
  consume_kind, assert_kind, advanced_token, when, choose, repeat, again, is_current_kind,
  is_source_available, is_not, ◌and_then◌,
}
use amun.Parser.Checks.{refuse_if, number_of, as_number, check_unnecessary_semicolon_warning}
use amun.Parser.Calls.{Calls}

-- The variables of `parse_enum_declaration`.
pub record EnumParts : Type 0 where
  pub enum_values_indexes : List (Bytes × ℤ)
  pub explicit_values : List ℤ
  pub index : ℕ
  pub has_explicit_values : Bool

abbrev no_values : EnumParts
no_values = record {
  enum_values_indexes = [];
  explicit_values = [];
  index = 0;
  has_explicit_values = false;
}

abbrev int_eq : ℤ → ℤ → Bool
int_eq (pos a) (pos b) = a == b
int_eq (negsuc a) (negsuc b) = a == b
int_eq _ _ = false

abbrev has_value : ℤ → List ℤ → Bool
has_value value [] = false
has_value value (x ∷ xs) = int_eq x value || has_value value xs

abbrev int_text : ℤ → Bytes
int_text (pos n) = to_string n
int_text (negsuc n) = codes "-" ++ to_string (suc n)

-- An element without a value takes the next index.
unfoldable pub implicit_value : Token → EnumParts → Parse EnumParts
implicit_value enum_value p = do
  refuse_if p.has_explicit_values enum_value.position
      (codes "You must add explicit value to all enum fields or to no one")
  pure (record p {
    enum_values_indexes = put enum_value.literal (pos p.index) p.enum_values_indexes;
    index = p.index + 1;
  })

-- The number behind `=`, one that no other element has by an explicit value.
unfoldable pub explicit_value : Token → Token → EnumParts → Parse EnumParts
explicit_value enum_value number p = do
  refuse_if (is_float_number_token number) enum_value.position
      (codes "Enum field explicit value must be integer value not float")
  explicit ← value (number_of number.literal)
  refuse_if (has_value explicit p.explicit_values) enum_value.position
      (codes "There is also one enum field with explicit value " ++ int_text explicit)
  pure (record p {
    enum_values_indexes = put enum_value.literal explicit p.enum_values_indexes;
    explicit_values = explicit ∷ p.explicit_values;
    has_explicit_values = true;
  })

module _ (call : Calls) where
  unfoldable pub parse_explicit_value : Token → EnumParts → Parse EnumParts
  parse_explicit_value enum_value p = do
    advanced_token
    field_value ← call.parse_expression
    number ← choose (as_number field_value) pure (
        report_error enum_value.position
          (codes "Enum field explicit value must be integer expression"))
    explicit_value enum_value number.0 p

  unfoldable pub parse_enum_value : EnumParts → Parse (Bool × EnumParts)
  parse_enum_value p = do
    enum_value ← consume_kind token_identifier (codes "Expect Symbol as enum value")
    refuse_if (contains enum_value.literal p.enum_values_indexes) enum_value.position
        (codes "Can't declare 2 elements with the same name")
    q ←
        when (is_current_kind token_equal) (parse_explicit_value enum_value p)
          (implicit_value enum_value p)
    when (is_current_kind token_comma) advanced_token done
    again q

  unfoldable pub parse_enum_values : Parse EnumParts
  parse_enum_values = do
    assert_kind token_open_brace (codes "Expect { after enum name")
    p ←
        repeat call.rounds (is_source_available and_then is_not (is_current_kind token_close_brace))
          parse_enum_value no_values
    assert_kind token_close_brace (codes "Expect } in the end of enum declaration")
    check_unnecessary_semicolon_warning
    pure p

  unfoldable pub parse_enum_declaration : Parse Statement
  parse_enum_declaration = do
    enum_token ← consume_kind token_enum (codes "Expect enum keyword")
    enum_name ← consume_kind token_identifier (codes "Expect Symbol as enum name")
    element_type ←
        when (is_current_kind token_colon) (advanced_token >> call.parse_type)
          (pure (AmunType.number integer_32))
    p ← parse_enum_values
    modify_context (λ c. record c {
      enumerations =
          put enum_name.literal
            (record {
              name = enum_name;
              values = p.enum_values_indexes;
              element_type = element_type;
            })
            c.enumerations;
    })
    pure (enum_declaration enum_name (AmunType.enum enum_name p.enum_values_indexes element_type))
