-- ===== src/Tokenizer/Tests.antt =====
-- Runs of the tokenizer on small texts, and the theorems applied to them.
use amun.Prelude.{ℕ, ◌≡◌, refl, List, [], ◌∷◌, length, arith, true, some, none}
use amun.Prelude.Text.{Bytes, codes}
use amun.Prelude.Decimal.{to_string}
use amun.Token.{
  token_var, token_identifier, token_equal, token_or_equal, token_int, token_uint16, token_string,
  token_semicolon, token_end_of_file, token_character, token_invalid, token_right_arrow,
}
use amun.Tokenizer.{Tokenizer, advance_while, remaining, step}
use amun.Tokenizer.Scan.{scan_next_token, scan_all_tokens, scan_switch}
use amun.Tokenizer.Text.{consume_symbol, consume_string, consume_character, symbol_char}
use amun.Tokenizer.Number.{remove_underscores}
use amun.Tokenizer.Chars.{is_alpha, is_alpha_num, is_digit, is_underscore, is_hex_digit, stol}
use amun.Tokenizer.Keyword.{resolve_keyword_token_kind}
use amun.Tokenizer.Keyword.Reserved.{reserved, kind_in, resolve_keyword_token_kind-reserved}
use amun.Tokenizer.Total.{Progress, Tokens, scan_next_token-Progress, scan_all_tokens-Tokens}
use amun.Tokenizer.View.Spans.{advance_while-take_while}
use amun.Tokenizer.Begun.{Begun, Yields}
use amun.Tokenizer.Blank.{skip_whitespaces}
use amun.Tokenizer.Blank.Comments.{Skipped}
use amun.Tokenizer.Blank.Leading.{
  Blank, space, newline, line_comment, block_comment, skip_whitespaces-Skipped,
}
use amun.Tokenizer.Symbols.{consume_symbol-Yields}
use amun.Tokenizer.Operators.{at_space, operator-Yields}
use amun.Tokenizer.Words.{symbol-Yields, number-Yields}
use amun.Tokenizer.Strings.{consume_string-escape, escape, escape_letter}
use amun.Tokenizer.Characters.{consume_character-escaped, consume_character-quote}
use amun.Tokenizer.Radix.Literals.{radix_literal-Yields, hex}
use amun.Token.Literals.{token_kind_literal}
use amun.Tokenizer.Spelling.{
  token_kind_literal-resolve_keyword_token_kind, token_kind_literal-operator_text,
}
use amun.Tokenizer.Suffixes.{u16}
use amun.Tokenizer.Suffixes.Literals.{suffixed-Yields}
use amun.Tokenizer.RoundTrip.Layout.{scan_all_tokens-layout, layout, IsLayout}
use amun.Tokenizer.RoundTrip.{Word, symbol, number, suffixed, text, character, operator, Lexes}

-- A tokenizer in the middle of a text.
abbrev state : Bytes → ℕ → ℕ → Tokenizer
state source start current = record {
  source_code = source;
  source_file_id = 3;
  source_code_length = length source;
  start_position = start;
  current_position = current;
  line_number = 1;
  column_start = start;
  column_current = current;
}

abbrev program : List (List Blank × Word)
program =
    (block_comment (codes " a ") ∷ [], symbol b'v' (codes "ar"))
    ∷ ([], symbol b'x' (codes "_1"))
    ∷ ([], operator token_equal)
    ∷ ([], number b'4' (codes "_2"))
    ∷ (line_comment (codes "b") ∷ newline ∷ [], suffixed b'7' [] u16)
    ∷ ([], character 10)
    ∷ ([], text (codes "a\n"))
    ∷ ([], operator token_semicolon)
    ∷ []

scan_all_tokens-layout_example :
    Lexes
      ((token_var, codes "var")
        ∷ (token_identifier, codes "x_1")
        ∷ (token_equal, [])
        ∷ (token_int, codes "42")
        ∷ (token_uint16, codes "7")
        ∷ (token_character, codes "\n")
        ∷ (token_string, codes "a\n")
        ∷ (token_semicolon, [])
        ∷ (token_end_of_file, [])
        ∷ [])
      (scan_all_tokens 3 (codes "/* a */var x_1 = 4_2 //b\n7u16 '\\n' \"a\\n\" ;"))
unfolding layout IsLayout escape escape_letter is_alpha is_alpha_num is_digit is_underscore
    remove_underscores resolve_keyword_token_kind
scan_all_tokens-layout_example = scan_all_tokens-layout 3 program (
  (refl, refl),
  (refl, tt),
  (
    (refl, refl),
    tt,
    (
      refl,
      tt,
      (
        (refl, refl),
        tt,
        ((refl, refl), ((refl, refl), (tt, tt)), ((refl, refl), tt, (refl, tt, (refl, tt, tt)))),
      ),
    ),
  ),
)

scan_all_tokens-Tokens_example : Tokens 3 1 5 (scan_all_tokens 3 (codes "if x"))
scan_all_tokens-Tokens_example = scan_all_tokens-Tokens 3 (codes "if x")

abbrev call : Tokenizer
call = state (codes "f // a\n -> b") 1 1

scan_next_token-Progress_example : Progress call (scan_next_token call)
scan_next_token-Progress_example = scan_next_token-Progress call (omega arith)

abbrev blanks : List Blank
blanks =
    space b' ' ∷ line_comment (codes " a") ∷ newline ∷ block_comment (codes " b ") ∷ newline ∷ []

abbrev commented : Tokenizer
commented = state (codes " // a\n/* b */\nx") 0 0

skip_whitespaces-Skipped_example : Skipped commented 3 (codes "x") (skip_whitespaces commented)
skip_whitespaces-Skipped_example =
    skip_whitespaces-Skipped blanks commented (codes "x")
      (refl, ((refl, refl), (tt, (refl, (tt, tt))))) refl
      (record { unread = refl; sized = refl; inside = omega arith })

abbrev literal : Tokenizer
literal = state (codes "\"a\\n\";") 1 1

consume_string-escape_example :
    Yields token_string (codes "a\n") (codes ";") (consume_string literal)
unfolding escape escape_letter
consume_string-escape_example =
    consume_string-escape literal (codes "a\n") (codes ";") refl
      (record { unread = refl; sized = refl; inside = omega arith })

abbrev letter : Tokenizer
letter = state (codes "'\\n';") 1 1

consume_character-escaped_example :
    Yields token_character (10 ∷ []) (codes ";") (consume_character letter)
unfolding escape_letter
consume_character-escaped_example =
    consume_character-escaped letter 10 (codes ";") refl refl
      (record { unread = refl; sized = refl; inside = omega arith })

abbrev quote : Tokenizer
quote = state (codes "'\\'';") 1 1

consume_character-quote_example :
    ((consume_character quote).1.kind ≡ token_invalid)
    × ((consume_character quote).1.literal ≡ codes "empty character literal")
consume_character-quote_example =
    consume_character-quote quote (codes "';")
      (record { unread = refl; sized = refl; inside = omega arith })

abbrev loop : Tokenizer
loop = state (codes "while1 (") 1 1

begun : Begun loop b'w' (codes "hile1 (")
begun = record {
  first = refl;
  left = record { unread = refl; sized = refl; inside = omega arith };
  same = refl;
  positive = omega arith;
}

consume_symbol-Yields_example :
    Yields token_identifier (codes "while1") (codes " (") (consume_symbol loop)
unfolding is_alpha_num is_alpha is_digit resolve_keyword_token_kind
consume_symbol-Yields_example = consume_symbol-Yields loop b'w' (codes "hile1 (") begun

symbol-Yields_example :
    Yields token_identifier (codes "while1") (codes " (") (scan_switch b'w' loop)
unfolding is_alpha_num is_alpha is_digit resolve_keyword_token_kind
symbol-Yields_example =
    symbol-Yields loop b'w' (codes "hile1") refl refl (at_space (codes "(")) begun

advance_while-take_while_example :
    advance_while symbol_char (remaining loop) loop ≡ (step 5 loop, true)
unfolding is_alpha_num is_alpha is_digit
advance_while-take_while_example =
    advance_while-take_while symbol_char (codes "hile1 (")
      (record { unread = refl; sized = refl; inside = omega arith }) refl

resolve_keyword_token_kind-reserved_example :
    resolve_keyword_token_kind (codes "while") ≡ kind_in reserved (codes "while")
resolve_keyword_token_kind-reserved_example = resolve_keyword_token_kind-reserved (codes "while")

abbrev amount : Tokenizer
amount = state (codes "07_2 ") 1 1

number-Yields_example : Yields token_int (codes "072") (codes " ") (scan_switch b'0' amount)
unfolding is_digit is_underscore remove_underscores
number-Yields_example = number-Yields amount b'0' (codes "7_2") refl refl (at_space []) (record {
  first = refl;
  left = record { unread = refl; sized = refl; inside = omega arith };
  same = refl;
  positive = omega arith;
})

abbrev limit : Tokenizer
limit = state (codes "65_535u16 ") 1 1

suffixed-Yields_example : Yields token_uint16 (codes "65535") (codes " ") (scan_switch b'6' limit)
unfolding is_digit is_underscore remove_underscores
suffixed-Yields_example =
    suffixed-Yields limit b'6' (codes "5_535") u16 refl refl (at_space []) (record {
      first = refl;
      left = record { unread = refl; sized = refl; inside = omega arith };
      same = refl;
      positive = omega arith;
    })

abbrev mask : Tokenizer
mask = state (codes "0xF_F+") 1 1

radix_literal-Yields_example : Yields token_int (codes "255") (codes "+") (scan_switch b'0' mask)
unfolding is_digit is_hex_digit is_underscore remove_underscores stol to_string
radix_literal-Yields_example = radix_literal-Yields hex mask (codes "F_F+") (record {
  first = refl;
  left = record { unread = refl; sized = refl; inside = omega arith };
  same = refl;
  positive = omega arith;
})

abbrev arrow : Tokenizer
arrow = state (codes "-> x") 1 1

operator-Yields_example : Yields token_right_arrow [] (codes " x") (scan_switch b'-' arrow)
operator-Yields_example =
    operator-Yields token_right_arrow arrow refl (at_space (codes "x")) (record {
      first = refl;
      left = record { unread = refl; sized = refl; inside = omega arith };
      same = refl;
      positive = omega arith;
    })

token_kind_literal-resolve_keyword_token_kind_example :
    token_kind_literal (resolve_keyword_token_kind (codes "while")) ≡ some (codes "while")
unfolding resolve_keyword_token_kind
token_kind_literal-resolve_keyword_token_kind_example =
    token_kind_literal-resolve_keyword_token_kind (codes "while") refl

token_kind_literal-operator_text_example : token_kind_literal token_or_equal ≡ none
token_kind_literal-operator_text_example = token_kind_literal-operator_text token_or_equal refl
