-- ===== src/Tokenizer/Progress/Texts.antt =====
-- Symbols, strings and characters move over their token (src/amun_tokenizer.cpp).
use amun.Prelude.{ℕ, suc, zero, ◌==◌, Option, some, none, ◌∷◌, [], not}
use amun.Prelude.Text.{Bytes, codes}
use amun.Token.{token_invalid, token_character}
use amun.Tokenizer.{Tokenizer, peek, advance, remaining}
use amun.Tokenizer.Moves.{
  Moves, Moves-refl, Moves-trans, advance-Moves, advance_while-Moves, Scans, Scanner,
  build_token-Scans, if-Scans,
}
use amun.Tokenizer.Text.{
  consume_symbol, consume_one_character, hex_escape, simple_escape, escape_switch, string_token,
  string_loop, character_token, consume_string, consume_character, symbol_char, minus_one,
}
use amun.Tokenizer.Progress.Tokens.{advance-Scans, Arrives, if-Arrives, arrive, Arrives-after}

pub consume_symbol-Scanner : Scanner consume_symbol
unfolding consume_symbol
consume_symbol-Scanner s = build_token-Scans _ _ (advance_while-Moves symbol_char (remaining s) s)

hex_escape-Arrives : (s : Tokenizer) → Arrives s (hex_escape s)
unfolding hex_escape
hex_escape-Arrives s =
    let m = Moves-trans (advance-Moves s) (Moves-trans (advance-Moves _) (advance-Moves _)) in
    if-Arrives _ (arrive _ m) (arrive _ m)

escape_switch-Arrives :
    (s : Tokenizer) (escape : ℕ) (o : Option ℕ) → Arrives s (escape_switch s escape o)
unfolding escape_switch
escape_switch-Arrives s escape (some c) = arrive _ (advance-Moves s)
escape_switch-Arrives s escape none = if-Arrives _ (hex_escape-Arrives s) (arrive _ (Moves-refl s))

consume_one_character-Arrives : (s : Tokenizer) → Arrives s (consume_one_character s)
unfolding consume_one_character
consume_one_character-Arrives s =
    let t = (advance s).0 in
    if-Arrives ((advance s).1 == b'\\')
      (Arrives-after (advance-Moves s) (escape_switch-Arrives t (peek t) (simple_escape (peek t))))
      (arrive (advance s).1 (advance-Moves s))

pub consume_one_character-Moves : (s : Tokenizer) → Moves s (consume_one_character s).0
consume_one_character-Moves s = (consume_one_character-Arrives s).moves

string_loop-Arrives :
    (fuel : ℕ) (stream : Bytes) (s : Tokenizer) → Arrives s (string_loop fuel stream s)
unfolding string_loop
string_loop-Arrives zero stream s = arrive _ (Moves-refl s)
string_loop-Arrives (suc fuel) stream s =
    let m = consume_one_character-Moves s in
    if-Arrives _ (if-Arrives _ (arrive _ m) (Arrives-after m (string_loop-Arrives fuel _ _)))
      (arrive _ (Moves-refl s))

string_token-Scans :
    {s : Tokenizer} (r : Tokenizer × Option Bytes) → Moves s r.0 → Scans s (string_token r)
unfolding string_token
string_token-Scans (t, none) m = build_token-Scans _ _ m
string_token-Scans (t, some stream) m = if-Scans _ (build_token-Scans _ _ m) (advance-Scans _ _ m)

pub consume_string-Scanner : Scanner consume_string
unfolding consume_string
consume_string-Scanner s =
    string_token-Scans (string_loop (remaining s) [] s)
      (string_loop-Arrives (remaining s) [] s).moves

character_token-Scans :
    {s : Tokenizer} (r : Tokenizer × ℕ) → Moves s r.0 → Scans s (character_token r)
unfolding character_token
character_token-Scans (t, c) m =
    if-Scans (c == minus_one) (build_token-Scans token_invalid (codes "invalid character") m) (
      if-Scans (c == b'\'') (build_token-Scans token_invalid (codes "empty character literal") m) (
        if-Scans (not (peek t == b'\''))
          (build_token-Scans token_invalid (codes "unterminated single quote character") m)
          (advance-Scans token_character (c ∷ []) m)))

pub consume_character-Scanner : Scanner consume_character
unfolding consume_character
consume_character-Scanner s =
    character_token-Scans (consume_one_character s) (consume_one_character-Moves s)
