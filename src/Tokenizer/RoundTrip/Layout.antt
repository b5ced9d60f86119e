-- ===== src/Tokenizer/RoundTrip/Layout.antt =====
-- A text laid out as words with white space and comments in front of them is scanned into the tokens of
-- its words (src/amun_tokenizer.cpp).
use amun.Prelude.{
  ℕ, suc, zero, ◌≤◌, ◌<◌, ◌≡◌, refl, true, List, [], ◌∷◌, ◌++◌, length, length-append, map, arith,
}
use amun.Prelude.Text.{Bytes}
use amun.Token.{token_end_of_file}
use amun.Tokenizer.{Tokenizer, new, is_source_available}
use amun.Tokenizer.View.{At, is_source_available-cons, is_source_available-nil}
use amun.Tokenizer.Begun.{Yields, switched}
use amun.Tokenizer.Operators.{Separated, at_end, at_space}
use amun.Tokenizer.Blank.Leading.{
  Blank, space, written_all, AllBlank, written-cons, length-written, skip_whitespaces-Skipped,
}
use amun.Tokenizer.Scan.{scan_next_token, scan_loop, scan_all_tokens}
use amun.Tokenizer.RoundTrip.{
  Word, IsWord, head_of, tail_of, kind_of, literal_of, word_lexeme, eof_lexeme, Lexes,
  prepend-Lexes, eof-Lexes, word-is_solid, word-Yields,
}

-- Each further word follows a space, any blanks, and nothing else.
unfoldable pub spaced : List (List Blank × Word) → Bytes
spaced [] = []
spaced ((bs, w) ∷ ws) = b' ' ∷ written_all bs (head_of w ∷ (tail_of w ++ spaced ws))

-- The first word may stand at the start of the text; the text ends with the last one.
unfoldable pub layout : List (List Blank × Word) → Bytes
unfolding spaced
layout [] = []
layout ((bs, w) ∷ ws) = written_all bs (head_of w ∷ (tail_of w ++ spaced ws))

abbrev pub words_of : List (List Blank × Word) → List Word
words_of [] = []
words_of ((bs, w) ∷ ws) = w ∷ words_of ws

-- The words are words, and the blanks are blanks in front of what follows them.
unfoldable pub IsLayout : List (List Blank × Word) → Type 0
unfolding spaced
IsLayout [] = Unit {0}
IsLayout ((bs, w) ∷ ws) =
    IsWord w × AllBlank bs (head_of w ∷ (tail_of w ++ spaced ws)) × IsLayout ws

spaced-Separated : (ws : List (List Blank × Word)) → Separated (spaced ws)
unfolding spaced
spaced-Separated [] = at_end
spaced-Separated ((bs, w) ∷ ws) = at_space _

available :
    (bs : List Blank) (c : ℕ) (rest : Bytes) {s : Tokenizer}
    → At s (written_all bs (c ∷ rest))
    → is_source_available s ≡ true
available [] c rest h = is_source_available-cons h
available (b ∷ bs) c rest h = written-cons b _ h

scan_next_token-blanks :
    (bs : List Blank) (w : Word) {rest : Bytes} (s : Tokenizer)
    → IsWord w
    → Separated rest
    → AllBlank bs (head_of w ∷ (tail_of w ++ rest))
    → At s (written_all bs (head_of w ∷ (tail_of w ++ rest)))
    → Yields (kind_of w) (literal_of w) rest (scan_next_token s)
unfolding scan_next_token
scan_next_token-blanks bs w s i sep a h =
    let solid = word-is_solid w i sep in
    switched solid (word-Yields w i sep) (skip_whitespaces-Skipped bs s _ a solid h).left

scan_loop-Lexes :
    (fuel : ℕ) (ws : List (List Blank × Word)) (s : Tokenizer)
    → IsLayout ws
    → length ws < fuel
    → At s (spaced ws)
    → Lexes (map word_lexeme (words_of ws) ++ eof_lexeme ∷ []) (scan_loop fuel s)
unfolding scan_loop spaced IsLayout
scan_loop-Lexes zero ws s a l h = absurd (omega arith)
scan_loop-Lexes (suc fuel) [] s a l h = rw (is_source_available-nil h) (eof-Lexes s)
scan_loop-Lexes (suc fuel) ((bs, w) ∷ ws) s a l h =
    let y = scan_next_token-blanks (space b' ' ∷ bs) w s a.0 (spaced-Separated ws) (refl, a.1) h in
    rw (is_source_available-cons h)
      (prepend-Lexes y (scan_loop-Lexes fuel ws (scan_next_token s).0 a.2 (omega arith) y.left))

length-blanks : (bs : List Blank) (rest : Bytes) → length rest ≤ length (written_all bs rest)
length-blanks [] rest = omega arith
length-blanks (b ∷ bs) rest =
    omega (arith, length-blanks bs rest, length-written b (written_all bs rest))

length-spaced : (ws : List (List Blank × Word)) → length ws ≤ length (spaced ws)
unfolding spaced
length-spaced [] = omega arith
length-spaced ((bs, w) ∷ ws) = omega (
  arith,
  length-spaced ws,
  length-append (tail_of w) (spaced ws),
  length-blanks bs (head_of w ∷ (tail_of w ++ spaced ws)),
)

new-At : (source_file_id : ℕ) (source : Bytes) → At (new source_file_id source) source
unfolding new
new-At source_file_id source = record { unread = refl; sized = refl; inside = omega arith }

-- Scanning a text of words, with white space and comments in front of each and at least a space between
-- two of them, gives back the kinds and the literals of the words, in order, and then the end of the
-- file, at which the text ends directly behind its last word.
pub scan_all_tokens-layout :
    (source_file_id : ℕ) (ws : List (List Blank × Word))
    → IsLayout ws
    → Lexes
        (map word_lexeme (words_of ws) ++ (token_end_of_file, []) ∷ [])
        (scan_all_tokens source_file_id (layout ws))
unfolding scan_all_tokens layout eof_lexeme IsLayout
scan_all_tokens-layout source_file_id [] a =
    scan_loop-Lexes 1 [] (new source_file_id []) tt (omega arith) (new-At source_file_id [])
scan_all_tokens-layout source_file_id ((bs, w) ∷ ws) a =
    let source = written_all bs (head_of w ∷ (tail_of w ++ spaced ws)) in
    let h = new-At source_file_id source in
    let y =
      scan_next_token-blanks bs w (new source_file_id source) a.0 (spaced-Separated ws) a.1 h in
    let t = (scan_next_token (new source_file_id source)).0 in
    unfold scan_loop in
    rw (available bs _ _ h) (
      prepend-Lexes y (
        scan_loop-Lexes (length source) ws t a.2
          (omega (
            arith,
            length-spaced ws,
            length-append (tail_of w) (spaced ws),
            length-blanks bs (head_of w ∷ (tail_of w ++ spaced ws)),
          ))
          y.left))
