-- ===== src/Mangle/Tuples.antt =====
-- `mangle_type` (src/amun_name_mangle.cpp) on tuples: nothing marks where a tuple ends.
use amun.Prelude.{◌++◌, ◌≡◌, refl, sym, ap, ◌∙◌, append_assoc}
use amun.Prelude.Text.{Bytes, codes}
use amun.Types.{AmunType, Types, nil, cons}
use amun.Mangle.{mangle_type, mangle_types}

abbrev pub append : Types → Types → Types
append nil us = us
append (cons t ts) us = cons t (append ts us)

pub mangle_types-append :
    (ts us : Types) → mangle_types (append ts us) ≡ mangle_types ts ++ mangle_types us
unfolding mangle_type
mangle_types-append nil us = refl
mangle_types-append (cons t ts) us =
    ap (◌++◌ (mangle_type t)) (mangle_types-append ts us)
    ∙ sym (append_assoc (mangle_type t) (mangle_types ts) (mangle_types us))

-- A tuple that other types follow has the spelling of one tuple that holds all of them.
pub mangle_types-tuple :
    (n m : Bytes) (ts us : Types)
    → mangle_types (cons (AmunType.tuple n ts) us) ≡ mangle_type (AmunType.tuple m (append ts us))
unfolding mangle_type
mangle_types-tuple n m ts us =
    append_assoc (codes "_tuple_") (mangle_types ts) (mangle_types us)
    ∙ ap (◌++◌ (codes "_tuple_")) (sym (mangle_types-append ts us))
