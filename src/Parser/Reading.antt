-- ===== src/Parser/Reading.antt =====
-- src/amun_parser.cpp: the primitives that read tokens, the conditions on the current token, and loops.
use amun.Prelude.{
  ℕ, zero, suc, ◌+◌, ◌==◌, Bool, true, false, not, ◌&&◌, ◌||◌, Option, none, some, if◌then◌else◌,
}
use amun.Prelude.Text.{Bytes}
use amun.Token.{TokenKind, Token, kind_eq}
use amun.Token.{token_invalid, token_end_of_file, token_semicolon, token_greater}
use amun.Tokenizer.{Tokenizer}
use amun.Tokenizer.Scan.{scan_next_token}
use amun.Parser.{
  Parser, ok, crash, Parse, Action, pure, out_of_fuel, report_error, value, ◌>>=◌, ◌>>◌,
}

-- The state with the scanned token behind the next one.
abbrev pub shift : Parser → Tokenizer × Token → Parser
shift s (tokenizer, scanned_token) = record s {
  tokenizer = tokenizer;
  previous_token = s.current_token;
  current_token = s.next_token;
  next_token = some scanned_token;
}

unfoldable pub advanced_token : Action
advanced_token s =
    let r = scan_next_token s.tokenizer in
    if kind_eq r.1.kind token_invalid
    then report_error r.1.position r.1.literal (record s { tokenizer = r.0 })
    else ok tt (shift s r)

unfoldable pub peek_previous : Parse Token
peek_previous s = value s.previous_token s

unfoldable pub peek_current : Parse Token
peek_current s = value s.current_token s

unfoldable pub peek_next : Parse Token
peek_next s = value s.next_token s

unfoldable pub peek_and_advance_token : Parse Token
peek_and_advance_token = do current ← peek_current; advanced_token; pure current

-- A condition on the current token, such as `is_current_kind(kind)`; the token must be there.
abbrev pub Test : Type 0
Test = Parser → Token → Bool

unfoldable pub is_current_kind : TokenKind → Test
is_current_kind kind s token = kind_eq token.kind kind

-- `is_next_kind`, where the next token is there.
abbrev pub next_is : TokenKind → Option Token → Bool
next_is kind (some token) = kind_eq token.kind kind
next_is kind none = false

unfoldable pub is_next_kind : TokenKind → Test
is_next_kind kind s token = next_is kind s.next_token

unfoldable pub is_source_available : Test
is_source_available s token = not (kind_eq token.kind token_end_of_file)

-- A test of a set of kinds, such as `is_unary_operator_token(peek_current())`.
unfoldable pub kind_in : (TokenKind → Bool) → Test
kind_in kinds s token = kinds token.kind

infixr 30 ◌and_then◌
unfoldable pub ◌and_then◌ : Test → Test → Test
(p and_then q) s token = p s token && q s token

infixr 20 ◌or_else◌
unfoldable pub ◌or_else◌ : Test → Test → Test
(p or_else q) s token = p s token || q s token

unfoldable pub is_not : Test → Test
is_not p s token = not (p s token)

-- `if (test) { hit } else { miss }`
module _ {ℓ} {A : Type ℓ} where
  abbrev pub branch : Test → Parse A → Parse A → Option Token → Parse A
  branch test hit miss (some token) s = if test s token then hit s else miss s
  branch test hit miss none s = crash

  unfoldable pub when : Test → Parse A → Parse A → Parse A
  when test hit miss s = branch test hit miss s.current_token s

-- `if (map.contains(key)) { found(map[key]) } else { missing }`, over the lookup.
unfoldable pub choose {ℓ κ} :
    {A : Type ℓ} {B : Type κ} → Option A → (A → Parse B) → Parse B → Parse B
choose (some a) found missing = found a
choose none found missing = missing

unfoldable pub consume_kind : TokenKind → Bytes → Parse Token
consume_kind kind message =
    when (is_current_kind kind) (advanced_token >> peek_previous)
      (do token ← peek_current; report_error token.position message)

unfoldable pub assert_kind : TokenKind → Bytes → Action
assert_kind kind message = when (is_current_kind kind) advanced_token (do
  token ← peek_current
  previous ← if kind_eq kind token_semicolon then peek_previous else pure token
  report_error previous.position message)

-- The two tokens stand on one line without a space between.
unfoldable pub is_right_shift_operator : Token → Token → Bool
is_right_shift_operator first second =
    kind_eq first.kind token_greater
    && kind_eq second.kind token_greater
    && first.position.line_number == second.position.line_number
    && first.position.column_end + 1 == second.position.column_start

-- `while (test) { round }` on fuel, over the variables of type `A` that the round assigns and the test
-- may read. A round that gives `false` leaves the loop by `break`.
module _ {ℓ} {A : Type ℓ} where
  unfoldable pub repeat_while : ℕ → (A → Test) → (A → Parse (Bool × A)) → A → Parse A
  repeat_while zero test round a = out_of_fuel
  repeat_while (suc fuel) test round a =
      when (test a) (do r ← round a; if r.0 then repeat_while fuel test round r.1 else pure r.1)
        (pure a)

  unfoldable pub repeat : ℕ → Test → (A → Parse (Bool × A)) → A → Parse A
  repeat fuel test = repeat_while fuel (λ _. test)

-- The rounds that go on, and those that break.
abbrev pub again {ℓ} : {A : Type ℓ} → A → Parse (Bool × A)
again a = pure (true, a)

abbrev pub leave {ℓ} : {A : Type ℓ} → A → Parse (Bool × A)
leave a = pure (false, a)
