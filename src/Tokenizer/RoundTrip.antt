-- ===== src/Tokenizer/RoundTrip.antt =====
-- The words of a text, and the token that each is scanned into (src/amun_tokenizer.cpp).
pub mod Layout
use amun.Tokenizer.Operators.{operator-is_solid}
use amun.Prelude.{
  false, ℕ, suc, zero, ◌≤◌, ◌<◌, ◌≡◌, refl, ap, true, arith, ◌==◌, List, [], ◌∷◌, ◌++◌, length,
  length-append, append_assoc, all, ◌||◌, Option, some, map,
}
use amun.Prelude.Text.{Bytes}
use amun.Token.{TokenKind, Token, token_string, token_character, token_int, token_end_of_file}
use amun.Tokenizer.{Tokenizer, Scanned, new, build_token}
use amun.Tokenizer.View.{At, first, is_source_available-cons, is_source_available-nil}
use amun.Tokenizer.Begun.{Begun, Yields, is_solid, scan_next_token-solid, scan_next_token-space}
use amun.Tokenizer.Operators.{
  operator_text, is_operator, rest_of, Separated, at_end, at_space, operator-Yields,
}
use amun.Tokenizer.Words.{symbol-Yields, number-Yields}
use amun.Tokenizer.Suffixes.{Suffix, suffix_text, suffix_kind}
use amun.Tokenizer.Suffixes.Literals.{suffixed-Yields}
use amun.Tokenizer.Characters.{character-Yields}
use amun.Tokenizer.Strings.{escaped, escape_letter, string-Yields, escape, readable}
use amun.Tokenizer.Keyword.{resolve_keyword_token_kind}
use amun.Tokenizer.Chars.{is_alpha, is_digit}
use amun.Tokenizer.Number.{digit_or_underscore, remove_underscores}
use amun.Tokenizer.Text.{symbol_char, minus_one}
use amun.Tokenizer.Scan.{scan_switch, scan_next_token, prepend, scan_loop, scan_all_tokens}

-- A symbol (a keyword or an identifier), a decimal literal, one with a suffix, a string, a character, or
-- an operator.
pub data Word : Type 0 where
  symbol : ℕ → Bytes → Word
  number : ℕ → Bytes → Word
  suffixed : ℕ → Bytes → Suffix → Word
  text : Bytes → Word
  character : ℕ → Word
  operator : TokenKind → Word

abbrev pub head_of : Word → ℕ
head_of (symbol c cs) = c
head_of (number d ds) = d
head_of (suffixed d ds x) = d
head_of (text t) = b'"'
head_of (character c) = b'\''
head_of (operator k) = first (operator_text k)

abbrev pub tail_of : Word → Bytes
tail_of (symbol c cs) = cs
tail_of (number d ds) = ds
tail_of (suffixed d ds x) = ds ++ suffix_text x
tail_of (text t) = escape t ++ b'"' ∷ []
tail_of (character c) = escaped c (escape_letter c) ++ b'\'' ∷ []
tail_of (operator k) = rest_of (operator_text k)

abbrev pub IsWord : Word → Type 0
IsWord (symbol c cs) = ((is_alpha c || c == b'_') ≡ true) × (all symbol_char cs ≡ true)
IsWord (number d ds) = (is_digit d ≡ true) × (all digit_or_underscore ds ≡ true)
IsWord (suffixed d ds x) = (is_digit d ≡ true) × (all digit_or_underscore ds ≡ true)
IsWord (text t) = readable t ≡ true
IsWord (character c) = ((c == minus_one) ≡ false) × ((c == b'\'') ≡ false)
IsWord (operator k) = is_operator k ≡ true

abbrev pub kind_of : Word → TokenKind
kind_of (symbol c cs) = resolve_keyword_token_kind (c ∷ cs)
kind_of (number d ds) = token_int
kind_of (suffixed d ds x) = suffix_kind x
kind_of (text t) = token_string
kind_of (character c) = token_character
kind_of (operator k) = k

abbrev pub literal_of : Word → Bytes
literal_of (symbol c cs) = c ∷ cs
literal_of (number d ds) = remove_underscores (d ∷ ds)
literal_of (suffixed d ds x) = remove_underscores (d ∷ ds)
literal_of (text t) = t
literal_of (character c) = c ∷ []
literal_of (operator k) = []

-- What the parser reads of a token.
abbrev pub lexeme : Token → TokenKind × Bytes
lexeme t = (t.kind, t.literal)

abbrev pub word_lexeme : Word → TokenKind × Bytes
word_lexeme w = (kind_of w, literal_of w)

symbol-is_solid : (c : ℕ) (rest : Bytes) → (is_alpha c || c == b'_') ≡ true → is_solid c rest ≡ true
unfolding is_alpha
symbol-is_solid c rest h = ground arith

digit-is_solid : (c : ℕ) (rest : Bytes) → is_digit c ≡ true → is_solid c rest ≡ true
unfolding is_digit
digit-is_solid c rest h = ground arith

pub word-is_solid :
    (w : Word) {rest : Bytes}
    → IsWord w
    → Separated rest
    → is_solid (head_of w) (tail_of w ++ rest) ≡ true
word-is_solid (symbol c cs) {rest} h sep = symbol-is_solid c (cs ++ rest) h.0
word-is_solid (number d ds) {rest} h sep = digit-is_solid d (ds ++ rest) h.0
word-is_solid (suffixed d ds x) {rest} h sep = digit-is_solid d ((ds ++ suffix_text x) ++ rest) h.0
word-is_solid (text t) {rest} h sep = refl
word-is_solid (character c) {rest} h sep = refl
word-is_solid (operator k) {rest} h sep = operator-is_solid k h sep

pub word-Yields :
    (w : Word) {rest : Bytes}
    → IsWord w
    → Separated rest
    → (s : Tokenizer) → Begun s (head_of w) (tail_of w ++ rest)
    → Yields (kind_of w) (literal_of w) rest (scan_switch (head_of w) s)
word-Yields (symbol c cs) h sep s b = symbol-Yields s c cs h.0 h.1 sep b
word-Yields (number d ds) h sep s b = number-Yields s d ds h.0 h.1 sep b
word-Yields (suffixed d ds x) {rest} h sep s b =
    suffixed-Yields s d ds x h.0 h.1 sep (rw (append_assoc ds (suffix_text x) rest) at b)
word-Yields (character c) {rest} h sep s b =
    character-Yields s c rest h.0 h.1 (rw append_assoc at b.left)
word-Yields (text t) {rest} h sep s b = string-Yields s t rest h (rw append_assoc at b.left)
word-Yields (operator k) h sep s b = operator-Yields k s h sep b

unfoldable pub eof_lexeme : TokenKind × Bytes
eof_lexeme = (token_end_of_file, [])

-- The tokens of a run, as the parser reads them.
pub record Lexes (lexemes : List (TokenKind × Bytes)) (result : Option (List Token)) : Type 0 where
  pub tokens : List Token
  pub returned : result ≡ some tokens
  pub lexed : map lexeme tokens ≡ lexemes

pub prepend-Lexes :
    {kind : TokenKind} {literal rest : Bytes} {r : Scanned} {lexemes : List (TokenKind × Bytes)}
    {result : Option (List Token)}
    → Yields kind literal rest r
    → Lexes lexemes result
    → Lexes ((kind, literal) ∷ lexemes) (prepend r.1 result)
prepend-Lexes {r} y run = record {
  tokens = r.1 ∷ run.tokens;
  returned = ap (prepend r.1) run.returned;
  lexed = cc (y.kind_is, y.literal_is, run.lexed);
}

pub eof-Lexes :
    (s : Tokenizer) → Lexes (eof_lexeme ∷ []) (some ((build_token token_end_of_file [] s).1 ∷ []))
unfolding build_token eof_lexeme
eof-Lexes s = record {
  tokens = (build_token token_end_of_file [] s).1 ∷ [];
  returned = refl;
  lexed = refl;
}
