-- ===== src/ScopedMap.antt =====
-- include/amun_scoped_map.hpp: a stack of maps from names. `linked_scoped` is listed from its back,
-- the current scope first, so the scope at index `i` of the vector is the last but `i` here. A scope
-- holds a key at most once. `back()` and `pop_back()` of an empty vector have no result: `none`.
pub mod Laws
pub mod Shadows
mod Tests
use amun.Prelude.{
  ℕ, ◌-◌, Bool, true, false, ◌||◌, if◌then◌else◌, List, [], ◌∷◌, Option, none, some, length, ℤ, pos,
  negsuc, map,
}
use amun.Prelude.Text.{Bytes, equal}

module _ {ℓ} {V : Type ℓ} where
  abbrev pub contains : Bytes → List (Bytes × V) → Bool
  contains key [] = false
  contains key ((k, v) ∷ scope) = equal key k || contains key scope

  -- The value of a key that the scope contains.
  abbrev pub find : Bytes → List (Bytes × V) → Option V
  find key [] = none
  find key ((k, v) ∷ scope) = if equal key k then some v else find key scope

  -- `scope[key] = value`
  abbrev pub put : Bytes → V → List (Bytes × V) → List (Bytes × V)
  put key value [] = (key, value) ∷ []
  put key value ((k, v) ∷ scope) =
      if equal key k then (k, value) ∷ scope else (k, v) ∷ put key value scope

  unfoldable pub define :
      Bytes → V → List (List (Bytes × V)) → Option (Bool × List (List (Bytes × V)))
  define key value [] = none
  define key value (scope ∷ scopes) =
      if contains key scope
      then some (false, scope ∷ scopes)
      else some (true, put key value scope ∷ scopes)

  unfoldable pub is_defined : Bytes → List (List (Bytes × V)) → Bool
  is_defined key [] = false
  is_defined key (scope ∷ scopes) = if contains key scope then true else is_defined key scopes

  -- The loop does not stop at the first scope that contains the key.
  unfoldable pub update : Bytes → V → List (List (Bytes × V)) → List (List (Bytes × V))
  update key value [] = []
  update key value (scope ∷ scopes) =
      let rest = update key value scopes in
      if contains key scope then put key value scope ∷ rest else scope ∷ rest

  unfoldable pub lookup : Bytes → List (List (Bytes × V)) → Option V
  lookup key [] = none
  lookup key (scope ∷ scopes) = if contains key scope then find key scope else lookup key scopes

  -- On no scopes the index is out of range.
  unfoldable pub lookup_on_current : Bytes → List (List (Bytes × V)) → Option (Option V)
  lookup_on_current key [] = none
  lookup_on_current key (scope ∷ scopes) =
      if contains key scope then some (find key scope) else some none

  unfoldable pub lookup_with_level : Bytes → List (List (Bytes × V)) → Option V × ℤ
  lookup_with_level key [] = (none, negsuc 0)
  lookup_with_level key (scope ∷ scopes) =
      if contains key scope
      then (find key scope, pos (length scopes))
      else lookup_with_level key scopes

  unfoldable pub push_new_scope : List (List (Bytes × V)) → List (List (Bytes × V))
  push_new_scope scopes = [] ∷ scopes

  unfoldable pub pop_current_scope : List (List (Bytes × V)) → Option (List (List (Bytes × V)))
  pop_current_scope [] = none
  pop_current_scope (scope ∷ scopes) = some scopes

  unfoldable pub size : List (List (Bytes × V)) → ℕ
  size scopes = length scopes
