-- ===== src/ScopedList.antt =====
-- include/amun_scoped_list.hpp: a stack of lists. `linked_scopes` is listed from its back, the current
-- scope first. `back()` and `pop_back()` of an empty vector, and an index out of range, have no result:
-- `none`.
pub mod Laws
mod Tests
use amun.Prelude.{
  ℕ, zero, suc, ◌-◌, List, [], ◌∷◌, ◌++◌, Option, none, some, length, ltb, if◌then◌else◌,
}

module _ {ℓ} {T : Type ℓ} where
  unfoldable pub push_front : T → List (List T) → Option (List (List T))
  push_front element [] = none
  push_front element (scope ∷ scopes) = some ((element ∷ scope) ∷ scopes)

  unfoldable pub push_back : T → List (List T) → Option (List (List T))
  push_back element [] = none
  push_back element (scope ∷ scopes) = some ((scope ++ element ∷ []) ∷ scopes)

  -- The overload without an index.
  unfoldable pub get_scope_elements : List (List T) → Option (List T)
  get_scope_elements [] = none
  get_scope_elements (scope ∷ scopes) = some scope

  abbrev at_index : ℕ → List (List T) → Option (List T)
  at_index i [] = none
  at_index zero (scope ∷ scopes) = some scope
  at_index (suc i) (scope ∷ scopes) = at_index i scopes

  -- The overload with an index, which counts from the front of the vector.
  unfoldable pub get_scope_elements_at : ℕ → List (List T) → Option (List T)
  get_scope_elements_at i scopes =
      if ltb i (length scopes) then at_index (length scopes - 1 - i) scopes else none

  unfoldable pub push_new_scope : List (List T) → List (List T)
  push_new_scope scopes = [] ∷ scopes

  unfoldable pub pop_current_scope : List (List T) → Option (List (List T))
  pop_current_scope [] = none
  pop_current_scope (scope ∷ scopes) = some scopes

  unfoldable pub size : List (List T) → ℕ
  size scopes = length scopes
