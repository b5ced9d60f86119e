-- ===== src/ScopedList/Laws.antt =====
-- include/amun_scoped_list.hpp: the elements of a scope stand in the order of the pushes.
use amun.Prelude.{
  List, [], ◌∷◌, ◌++◌, Option, none, some, ◌≡◌, refl, sym, ap, ◌∙◌, append_assoc, append-nil,
}
use amun.ScopedList.{push_front, push_back, push_new_scope}

pub data Push {ℓ} (T : Type ℓ) : Type ℓ where
  front : T → Push T
  back : T → Push T

module _ {ℓ} {T : Type ℓ} where
  abbrev pub push : Push T → List (List T) → Option (List (List T))
  push (front element) = push_front element
  push (back element) = push_back element

  -- The pushes one after the other.
  abbrev pub push_all : List (Push T) → Option (List (List T)) → Option (List (List T))
  push_all pushes none = none
  push_all [] (some scopes) = some scopes
  push_all (p ∷ pushes) (some scopes) = push_all pushes (push p scopes)

  -- A scope with the elements of the front in front of it, the last one first, and those of the back
  -- behind it.
  abbrev pub around : List (Push T) → List T → List T
  around [] scope = scope
  around (front element ∷ pushes) scope = around pushes (element ∷ scope)
  around (back element ∷ pushes) scope = around pushes (scope ++ element ∷ [])

  abbrev pub fronts : List (Push T) → List T
  fronts [] = []
  fronts (front element ∷ pushes) = fronts pushes ++ element ∷ []
  fronts (back element ∷ pushes) = fronts pushes

  abbrev pub backs : List (Push T) → List T
  backs [] = []
  backs (front element ∷ pushes) = backs pushes
  backs (back element ∷ pushes) = element ∷ backs pushes

  around-split :
      (pushes : List (Push T)) (scope : List T)
      → around pushes scope ≡ fronts pushes ++ (scope ++ backs pushes)
  around-split [] scope = sym (append-nil scope)
  around-split (front element ∷ pushes) scope =
      around-split pushes (element ∷ scope)
      ∙ sym (append_assoc (fronts pushes) (element ∷ []) (scope ++ backs pushes))
  around-split (back element ∷ pushes) scope =
      around-split pushes (scope ++ element ∷ [])
      ∙ ap (◌++◌ (fronts pushes)) (append_assoc scope (element ∷ []) (backs pushes))

  push_all-around :
      (pushes : List (Push T)) (scope : List T) (scopes : List (List T))
      → push_all pushes (some (scope ∷ scopes)) ≡ some (around pushes scope ∷ scopes)
  unfolding push_front push_back
  push_all-around [] scope scopes = refl
  push_all-around (front element ∷ pushes) scope scopes =
      push_all-around pushes (element ∷ scope) scopes
  push_all-around (back element ∷ pushes) scope scopes =
      push_all-around pushes (scope ++ element ∷ []) scopes

  -- Pushes to a new scope, in any order, leave the outer scopes alone; the new scope holds the elements
  -- pushed to its front, the last one first, and then those pushed to its back, in order.
  pub push_new_scope-push_all :
      (pushes : List (Push T)) (scopes : List (List T))
      → push_all pushes (some (push_new_scope scopes))
        ≡ some ((fronts pushes ++ backs pushes) ∷ scopes)
  unfolding push_new_scope
  push_new_scope-push_all pushes scopes =
      push_all-around pushes [] scopes ∙ ap (λ s. some (s ∷ scopes)) (around-split pushes [])
