-- ===== src/ScopedMap/Laws.antt =====
-- include/amun_scoped_map.hpp: what `define`, `update` and the lookups see of one another.
use amun.Prelude.{
  Bool, true, false, ◌||◌, ◌&&◌, if◌then◌else◌, List, [], ◌∷◌, Option, none, some, ℤ, pos, negsuc,
  ◌≡◌, refl, ap, ◌∙◌, arith, ◌++◌, length, Bool-cases, inl, inr,
}
use amun.Prelude.Text.{Bytes, equal, equal_iff}
use amun.ScopedMap.{contains, find, put, define, is_defined, update, lookup, lookup_with_level}

equal-same : (k j l : Bytes) → equal k j ≡ true → equal l k ≡ equal l j
equal-same k j l h = ap (equal l) ((equal_iff k j).0 h)

equal-apart : (k j l : Bytes) → equal k j ≡ false → (equal l k && equal l j) ≡ false
equal-apart k j l h = elim (Bool-cases (equal l k)) [
  | inl same ↦ rw same (ap (λ x. equal x j) ((equal_iff l k).0 same) ∙ h)
  | inr apart ↦ rw apart
]

-- The result of `define`, with what is read of the new scopes.
abbrev pub map_snd {ℓ ℓ'} :
    {A : Type ℓ} {B : Type ℓ'} → (A → B) → Option (Bool × A) → Option (Bool × B)
map_snd f none = none
map_snd f (some (b, a)) = some (b, f a)

module _ {ℓ} {V : Type ℓ} where
  pub find-put :
      (k : Bytes) (v : V) (scope : List (Bytes × V)) (l : Bytes)
      → find l (put k v scope) ≡ (if equal l k then some v else find l scope)
  find-put k v [] l = refl
  find-put k v ((j, w) ∷ scope) l = elim (Bool-cases (equal k j)) [
    | inl same ↦ rw same (ground (arith, equal-same k j l same))
    | inr apart ↦ rw apart (rw (find-put k v scope l) (ground (arith, equal-apart k j l apart)))
  ]

  pub contains-put :
      (k : Bytes) (v : V) (scope : List (Bytes × V)) (l : Bytes)
      → contains l (put k v scope) ≡ (equal l k || contains l scope)
  contains-put k v [] l = refl
  contains-put k v ((j, w) ∷ scope) l = elim (Bool-cases (equal k j)) [
    | inl same ↦ rw same (ground (arith, equal-same k j l same))
    | inr apart ↦ rw apart (rw (contains-put k v scope l) (ground arith))
  ]

  contains-apart :
      (k : Bytes) (scope : List (Bytes × V)) (l : Bytes)
      → contains k scope ≡ false
      → (equal l k && contains l scope) ≡ false
  contains-apart k scope l h = elim (Bool-cases (equal l k)) [
    | inl same ↦ rw same (ap (λ x. contains x scope) ((equal_iff l k).0 same) ∙ h)
    | inr apart ↦ rw apart
  ]

  -- With at least one scope `define` does not fail. On a name of the current scope it returns false
  -- and leaves every lookup as it was; on any other name it returns true, and then that name has the
  -- value and every other name the value it had.
  pub define-lookup :
      (k : Bytes) (v : V) (scope : List (Bytes × V)) (scopes : List (List (Bytes × V))) (l : Bytes)
      → map_snd (lookup l) (define k v (scope ∷ scopes)) ≡ (
          if contains k scope
          then some (false, lookup l (scope ∷ scopes))
          else some (true, if equal l k then some v else lookup l (scope ∷ scopes)))
  unfolding define lookup
  define-lookup k v scope scopes l = elim (Bool-cases (contains k scope)) [
    | inl held ↦ rw held
    | inr new ↦ rw (new, contains-put k v scope l, find-put k v scope l) (ground arith)
  ]

  -- After `update` a defined name has the new value, and every other name the value it had; a name
  -- that is not defined stays undefined.
  pub update-lookup :
      (k : Bytes) (v : V) (scopes : List (List (Bytes × V))) (l : Bytes)
      → lookup l (update k v scopes)
        ≡ (if equal l k && is_defined k scopes then some v else lookup l scopes)
  unfolding update lookup is_defined
  update-lookup k v [] l = ground arith
  update-lookup k v (scope ∷ scopes) l = elim (Bool-cases (contains k scope)) [
    | inl held ↦
        rw (held, contains-put k v scope l, find-put k v scope l, update-lookup k v scopes l)
          (ground arith)
    | inr new ↦ rw (new, update-lookup k v scopes l) (ground (arith, contains-apart k scope l new))
  ]

  -- Where a name stands: in no scope, with the level -1, or in a scope below inner ones that do not have
  -- it, with the number of scopes around that scope for its level.
  pub data AtLevel (k : Bytes) : List (List (Bytes × V)) → Option V × ℤ → Type ℓ where
    nowhere :
        {scopes : List (List (Bytes × V))}
        → is_defined k scopes ≡ false
        → AtLevel k scopes (none, negsuc 0)
    innermost :
        (inner : List (List (Bytes × V))) (scope : List (Bytes × V))
        (outer : List (List (Bytes × V)))
        → is_defined k inner ≡ false
        → contains k scope ≡ true
        → AtLevel k (inner ++ scope ∷ outer) (find k scope, pos (length outer))

  below :
      (k : Bytes) (scope : List (Bytes × V)) (scopes : List (List (Bytes × V))) (r : Option V × ℤ)
      → contains k scope ≡ false
      → AtLevel k scopes r
      → AtLevel k (scope ∷ scopes) r
  unfolding is_defined
  below k scope scopes r new (nowhere h) = nowhere (rw new h)
  below k scope scopes r new (innermost inner held outer h c) =
      innermost (scope ∷ inner) held outer (rw new h) c

  -- `lookup_with_level` finds the value of `lookup`. Its level is -1 where no scope has the name;
  -- otherwise it is the number of scopes around the innermost scope that has it, and the value is that
  -- scope's.
  pub lookup_with_level-lookup :
      (k : Bytes) (scopes : List (List (Bytes × V)))
      → ((lookup_with_level k scopes).0 ≡ lookup k scopes)
        × AtLevel k scopes (lookup_with_level k scopes)
  unfolding lookup_with_level lookup is_defined
  lookup_with_level-lookup k [] = (refl, nowhere refl)
  lookup_with_level-lookup k (scope ∷ scopes) = elim (Bool-cases (contains k scope)) [
    | inl held ↦ rw held (refl, innermost [] scope scopes refl held)
    | inr new ↦
        let r = lookup_with_level-lookup k scopes in
        rw new (r.0, below k scope scopes (lookup_with_level k scopes) new r.1)
  ]
