-- ===== src/Tokenizer/Strings.antt =====
-- A string is read back from its escaped form (src/amun_tokenizer.cpp).
use amun.Tokenizer.Chars.{is_alpha}
use amun.Tokenizer.Scan.{
  scan_switch, switch_one, switch_two, switch_assign, one_character, two_characters,
  assign_or_twice, scan_other,
}
use amun.Prelude.{
  ℕ, suc, zero, ◌≤◌, ◌<◌, ◌≡◌, refl, Bool, true, false, not, arith, ◌==◌, if◌then◌else◌, [], ◌∷◌,
  ◌++◌, length, length-append, append_assoc, append-nil, all, Option, none, some,
}
use amun.Prelude.Text.{Bytes}
use amun.Token.{token_string}
use amun.Tokenizer.{Tokenizer, peek, is_source_available, remaining}
use amun.Tokenizer.View.{At, peek-cons, advance-cons, step-At, is_source_available-cons}
use amun.Tokenizer.View.Spans.{remaining-length}
use amun.Tokenizer.Begun.{Yields, build_token-Yields}
use amun.Tokenizer.Text.{
  simple_escape, escape_switch, consume_one_character, string_loop, string_token, consume_string,
  minus_one,
}

-- The letter behind the backslash for a byte that is written as an escape.
unfoldable pub escape_letter : ℕ → Option ℕ
escape_letter c =
    if c == 7
    then some b'a'
    else if c == 8
    then some b'b'
    else if c == 12
    then some b'f'
    else if c == 10
    then some b'n'
    else if c == 13
    then some b'r'
    else if c == 9
    then some b't'
    else if c == 11
    then some b'v'
    else if c == 0
    then some b'0'
    else if c == b'\''
    then some b'\''
    else if c == b'\\'
    then some b'\\'
    else if c == b'"'
    then some b'"'
    else none

abbrev pub escaped : ℕ → Option ℕ → Bytes
escaped c (some letter) = b'\\' ∷ letter ∷ []
escaped c none = c ∷ []

-- A text as it stands between the quotes of a string literal.
unfoldable pub escape : Bytes → Bytes
unfolding escape_letter
escape [] = []
escape (c ∷ cs) = escaped c (escape_letter c) ++ escape cs

simple_escape-letter : (c l : ℕ) → escape_letter c ≡ some l → simple_escape l ≡ some c
unfolding escape_letter simple_escape
simple_escape-letter c l h = ground arith

escape_letter-plain :
    (c : ℕ) → escape_letter c ≡ none → ((c == b'\\') ≡ false) × ((c == b'"') ≡ false)
unfolding escape_letter
escape_letter-plain c h = ground arith

-- One character is read, and `more` is left.
pub record ReadsOne (c : ℕ) (more : Bytes) (r : Tokenizer × ℕ) : Type 0 where
  pub value : r.1 ≡ c
  pub left : At r.0 more

pub consume-ReadsOne :
    {s : Tokenizer} (c : ℕ) (o : Option ℕ) (more : Bytes)
    → escape_letter c ≡ o
    → At s (escaped c o ++ more)
    → ReadsOne c more (consume_one_character s)
unfolding consume_one_character
consume-ReadsOne c none more e h =
    rw (advance-cons h, (escape_letter-plain c e).0) (record { value = refl; left = step-At h })
consume-ReadsOne {s} c (some l) more e h =
    rw (advance-cons h, peek-cons (step-At h), simple_escape-letter c l e)
      (unfold escape_switch in
        rw (advance-cons (step-At h)) (record { value = refl; left = step-At (step-At h) }))

-- No opening byte of an escaped character is a quote.
peek-escaped :
    {s : Tokenizer} (c : ℕ) (o : Option ℕ) (more : Bytes)
    → escape_letter c ≡ o
    → At s (escaped c o ++ more)
    → ((peek s == b'"') ≡ false) × (is_source_available s ≡ true)
peek-escaped c none more e h =
    (rw (peek-cons h) (escape_letter-plain c e).1, is_source_available-cons h)
peek-escaped c (some l) more e h = (rw (peek-cons h) refl, is_source_available-cons h)

-- No byte of the text is the one that the code takes for an error.
abbrev pub readable : Bytes → Bool
readable = all (λ c. not (c == minus_one))

record ReadsAll (text : Bytes) (rest : Bytes) (r : Tokenizer × Option Bytes) : Type 0 where
  value : r.1 ≡ some text
  left : At r.0 (b'"' ∷ rest)

readable-cons :
    (c : ℕ) (text : Bytes)
    → readable (c ∷ text) ≡ true
    → ((c == minus_one) ≡ false) × (readable text ≡ true)
readable-cons c text r = ground arith

string_loop-ReadsAll :
    (fuel : ℕ) (text stream : Bytes) {rest : Bytes} {s : Tokenizer}
    → readable text ≡ true
    → length text < fuel
    → At s (escape text ++ b'"' ∷ rest)
    → ReadsAll (stream ++ text) rest (string_loop fuel stream s)
unfolding string_loop escape
string_loop-ReadsAll zero text stream r l h = absurd (omega arith)
string_loop-ReadsAll (suc fuel) [] stream r l h =
    rw (peek-cons h, is_source_available-cons h) (record { value = rw append-nil; left = h })
string_loop-ReadsAll (suc fuel) (c ∷ text) stream {rest} {s} r l h =
    let h' : At s (escaped c (escape_letter c) ++ (escape text ++ b'"' ∷ rest)) =
      rw (← append_assoc) h in
    let (quote, available) = peek-escaped c _ _ refl h' in
    let one = consume-ReadsOne c _ _ refl h' in
    let last : (c == minus_one) ≡ false = (readable-cons c text r).0 in
    rw (quote, available, one.value, last)
      (rw append_assoc at (
        string_loop-ReadsAll fuel text (stream ++ c ∷ []) {rest = rest}
          {s = (consume_one_character s).0} (readable-cons c text r).1 (omega arith) one.left))

length-escape : (text : Bytes) → length text ≤ length (escape text)
unfolding escape
length-escape [] = omega arith
length-escape (c ∷ text) = longer (length-escape text) (escape_letter c)
  where
    longer :
        length text ≤ length (escape text)
        → (o : Option ℕ) → suc (length text) ≤ length (escaped c o ++ escape text)
    longer ih none = omega arith
    longer ih (some l) = omega arith

string_token-Yields :
    (text rest : Bytes) (r : Tokenizer × Option Bytes)
    → ReadsAll text rest r
    → Yields token_string text rest (string_token r)
unfolding string_token
string_token-Yields text rest (s, none) h = absurd (ground (arith, h.value))
string_token-Yields text rest (s, some t) h =
    let same : t ≡ text = cc (h.value) in
    rw (is_source_available-cons h.left, advance-cons h.left, same)
      (build_token-Yields token_string text (step-At h.left))

-- Reading a string literal gives back the text that was escaped, whatever bytes it has but the one
-- that stands for an error; the quote behind it is consumed.
pub consume_string-escape :
    (s : Tokenizer) (text rest : Bytes)
    → readable text ≡ true
    → At s (escape text ++ b'"' ∷ rest)
    → Yields token_string text rest (consume_string s)
unfolding consume_string
consume_string-escape s text rest r h = string_token-Yields text rest _ (
    string_loop-ReadsAll (remaining s) text [] r
      (omega
        (arith, remaining-length h, length-append (escape text) (b'"' ∷ rest), length-escape text))
      h)

-- The switch on the opening quote.
pub string-Yields :
    (s : Tokenizer) (text rest : Bytes)
    → readable text ≡ true
    → At s (escape text ++ b'"' ∷ rest)
    → Yields token_string text rest (scan_switch b'"' s)
unfolding scan_switch switch_one switch_two switch_assign one_character two_characters
    assign_or_twice scan_other is_alpha
string-Yields s text rest r h = consume_string-escape s text rest r h
