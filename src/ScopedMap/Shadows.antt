-- ===== src/ScopedMap/Shadows.antt =====
-- include/amun_scoped_map.hpp: inner scopes hide outer ones. `update` reaches through them.
use amun.Prelude.{
  Bool, if◌then◌else◌, List, [], ◌∷◌, Option, none, some, ◌≡◌, refl, ap, ◌∙◌, arith, Bool-cases,
  inl, inr,
}
use amun.Prelude.Text.{Bytes, equal_iff}
use amun.ScopedMap.{
  contains, put, define, is_defined, update, lookup, push_new_scope, pop_current_scope,
}
use amun.ScopedMap.Laws.{update-lookup}

module _ {ℓ} {V : Type ℓ} where
  abbrev pub scopes_of : Option (Bool × List (List (Bytes × V))) → Option (List (List (Bytes × V)))
  scopes_of none = none
  scopes_of (some (b, s)) = some s

  -- The definitions of a block, one after the other; those of a name already held do nothing.
  abbrev pub define_all :
      List (Bytes × V) → Option (List (List (Bytes × V))) → Option (List (List (Bytes × V)))
  define_all entries none = none
  define_all [] (some scopes) = some scopes
  define_all ((k, v) ∷ entries) (some scopes) = define_all entries (scopes_of (define k v scopes))

  abbrev pub then_pop : Option (List (List (Bytes × V))) → Option (List (List (Bytes × V)))
  then_pop none = none
  then_pop (some scopes) = pop_current_scope scopes

  scopes_of-define :
      (k : Bytes) (v : V) (scope : List (Bytes × V)) (scopes : List (List (Bytes × V)))
      → scopes_of (define k v (scope ∷ scopes))
        ≡ some ((if contains k scope then scope else put k v scope) ∷ scopes)
  unfolding define
  scopes_of-define k v scope scopes = ground arith

  defined-pop :
      (entries scope : List (Bytes × V)) (scopes : List (List (Bytes × V)))
      → then_pop (define_all entries (some (scope ∷ scopes))) ≡ some scopes
  unfolding pop_current_scope
  defined-pop [] scope scopes = refl
  defined-pop ((k, v) ∷ entries) scope scopes =
      ap (λ d. then_pop (define_all entries d)) (scopes_of-define k v scope scopes)
      ∙ defined-pop entries (if contains k scope then scope else put k v scope) scopes

  -- A scope that is opened, filled with any definitions and closed leaves the scopes as they were.
  pub push-define_all-pop :
      (entries : List (Bytes × V)) (scopes : List (List (Bytes × V)))
      → then_pop (define_all entries (some (push_new_scope scopes))) ≡ some scopes
  unfolding push_new_scope
  push-define_all-pop entries scopes = defined-pop entries [] scopes

  abbrev pub lookup_after : Bytes → Option (List (List (Bytes × V))) → Option V
  lookup_after k none = none
  lookup_after k (some scopes) = lookup k scopes

  -- Updating a name in an inner scope also overwrites the variable of an outer scope that the name
  -- hides: once the inner scope is closed, the outer one has the new value if it was defined.
  pub update-pop-lookup :
      (k : Bytes) (v : V) (scope : List (Bytes × V)) (scopes : List (List (Bytes × V)))
      → lookup_after k (pop_current_scope (update k v (scope ∷ scopes)))
        ≡ (if is_defined k scopes then some v else lookup k scopes)
  unfolding update pop_current_scope
  update-pop-lookup k v scope scopes = elim (Bool-cases (contains k scope)) [
    | inl held ↦ rw held (rw (update-lookup k v scopes k, (equal_iff k k).1 refl))
    | inr new ↦ rw new (rw (update-lookup k v scopes k, (equal_iff k k).1 refl))
  ]
