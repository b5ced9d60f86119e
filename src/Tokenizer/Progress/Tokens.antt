-- ===== src/Tokenizer/Progress/Tokens.antt =====
-- Tokens built where a handler stops, and the states that its parts arrive at.
use amun.Prelude.{Bool, true, false, if◌then◌else◌}
use amun.Prelude.Text.{Bytes}
use amun.Token.{TokenKind}
use amun.Tokenizer.{Tokenizer, advance, build_token}
use amun.Tokenizer.Moves.{Moves, Moves-refl, Moves-trans, advance-Moves, Scans, build_token-Scans}

pub token-Scans :
    (kind : TokenKind) (literal : Bytes) (s : Tokenizer) → Scans s (build_token kind literal s)
token-Scans kind literal s = build_token-Scans kind literal (Moves-refl s)

pub advance-Scans :
    {s t : Tokenizer} (kind : TokenKind) (literal : Bytes)
    → Moves s t
    → Scans s (build_token kind literal (advance t).0)
advance-Scans {t} kind literal m = build_token-Scans kind literal (Moves-trans m (advance-Moves t))

-- The state of a result, as a family that determines the result.
pub record Arrives {ℓ} {A : Type ℓ} (s : Tokenizer) (r : Tokenizer × A) : Type ℓ where
  pub moves : Moves s r.0

pub if-Arrives {ℓ} :
    {A : Type ℓ} (b : Bool) {x y : Tokenizer × A} {s : Tokenizer}
    → Arrives s x
    → Arrives s y
    → Arrives s (if b then x else y)
if-Arrives true h k = h
if-Arrives false h k = k

pub arrive {ℓ} : {A : Type ℓ} {s t : Tokenizer} (a : A) → Moves s t → Arrives s (t, a)
arrive a m = record { moves = m }

pub Arrives-after {ℓ} :
    {A : Type ℓ} {s t : Tokenizer} {r : Tokenizer × A} → Moves s t → Arrives t r → Arrives s r
Arrives-after m h = record { moves = Moves-trans m h.moves }
