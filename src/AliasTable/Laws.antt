-- ===== src/AliasTable/Laws.antt =====
-- src/amun_alias_table.cpp: what is read of the table after a definition and after a resolution.
use amun.Prelude.{
  true, ◌||◌, if◌then◌else◌, [], ◌∷◌, Option, none, some, ◌≡◌, sym, ap, ◌∙◌, arith, Bool-cases, inl,
  inr, Option-cases,
}
use amun.Prelude.Text.{Bytes, equal, equal_iff}
use amun.ScopedMap
use amun.ScopedMap.{find, put}
use amun.ScopedMap.Laws.{find-put, contains-put}
use amun.Types.{MaybeType, null}
use amun.AliasTable.{Table, entry_of, define_alias, resolve_alias, contains}

-- The result of `resolve_alias` from what the table holds.
abbrev pub resolved : Option MaybeType → MaybeType
resolved (some type) = type
resolved none = null

resolve_alias-type :
    (alias : Bytes) (table : Table) → (resolve_alias alias table).1 ≡ resolved (find alias table)
unfolding resolve_alias
resolve_alias-type alias table = elim (Option-cases (find alias table)) [
  | inl e ↦ ap (λ o. (entry_of alias table o).1) e ∙ sym (ap resolved e)
  | inr e ↦ ap (λ o. (entry_of alias table o).1) e.1 ∙ sym (ap resolved e.1)
]

-- A name that is defined resolves to the type of its last definition, and every other name to what it
-- was before; a name that was never defined resolves to a null pointer.
pub define_alias-resolve_alias :
    (alias : Bytes) (type : MaybeType) (table : Table) (l : Bytes)
    → (resolve_alias l (define_alias alias type table)).1
      ≡ (if equal l alias then type else (resolve_alias l table).1)
unfolding define_alias
define_alias-resolve_alias alias type table l =
    rw
      (
        resolve_alias-type l (put alias type table),
        find-put alias type table l,
        resolve_alias-type l table,
      )
      (elim (Bool-cases (equal l alias)) [ inl e ↦ rw e | inr e ↦ rw e ])

contains-of_find :
    (alias : Bytes) (table : Table) (type : MaybeType)
    → find alias table ≡ some type
    → ScopedMap.contains alias table ≡ true
contains-of_find alias [] type h = cc
contains-of_find alias ((k, v) ∷ table) type h = ground (arith, contains-of_find alias table type)

held-name :
    (alias l : Bytes) (table : Table)
    → ScopedMap.contains alias table ≡ true
    → ScopedMap.contains l table ≡ (equal l alias || ScopedMap.contains l table)
held-name alias l table h = elim (Bool-cases (equal l alias)) [
  | inl same ↦ rw same (ap (λ x. ScopedMap.contains x table) ((equal_iff l alias).0 same) ∙ h)
  | inr apart ↦ rw apart
]

-- Resolving a name also enters it: afterwards the table contains that name, defined or not, and
-- otherwise the names that it contained.
pub resolve_alias-contains :
    (alias : Bytes) (table : Table) (l : Bytes)
    → contains l (resolve_alias alias table).0 ≡ (equal l alias || contains l table)
unfolding resolve_alias contains
resolve_alias-contains alias table l = elim (Option-cases (find alias table)) [
  | inl e ↦
      ap (λ o. ScopedMap.contains l (entry_of alias table o).0) e ∙ contains-put alias null table l
  | inr e ↦
      ap (λ o. ScopedMap.contains l (entry_of alias table o).0) e.1
      ∙ held-name alias l table (contains-of_find alias table e.0 e.1)
]
