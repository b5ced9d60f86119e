-- ===== src/Prelude/Text.antt =====
-- Texts as lists of bytes, and their equality (`std::string`'s `==`).
use Prim.Native.Char.{code}
use amun.Prelude.{ℕ, String, Bool, true, false, ◌&&◌, List, [], ◌∷◌, ◌==◌, ◌↔◌, ◌≡◌, arith}

abbrev pub Bytes : Type 0
Bytes = List ℕ

-- The bytes of an ASCII text.
abbrev pub codes : String → Bytes
codes String.[] = []
codes (String.◌∷◌ c s) = code c ∷ codes s

-- Byte after byte, up to the end of both.
unfoldable pub equal : Bytes → Bytes → Bool
equal (c ∷ left) (d ∷ right) = c == d && equal left right
equal [] [] = true
equal (c ∷ left) [] = false
equal [] (d ∷ right) = false

pub equal_iff : (left right : Bytes) → (equal left right ≡ true) ↔ (left ≡ right)
unfolding equal
equal_iff [] [] = ground arith
equal_iff [] (d ∷ right) = ground arith
equal_iff (c ∷ left) [] = ground arith
equal_iff (c ∷ left) (d ∷ right) = ground (arith, equal_iff left right)
