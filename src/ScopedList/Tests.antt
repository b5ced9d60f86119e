-- ===== src/ScopedList/Tests.antt =====
-- The law of the pushes on four of them.
use amun.Prelude.{ℕ, List, [], ◌∷◌, some, ◌≡◌}
use amun.ScopedList.{push_new_scope}
use amun.ScopedList.Laws.{Push, front, back, push_all, push_new_scope-push_all}

abbrev pushes : List (Push ℕ)
pushes = back 1 ∷ front 2 ∷ back 3 ∷ front 4 ∷ []

push_new_scope-push_all_example :
    push_all pushes (some (push_new_scope ((9 ∷ []) ∷ [])))
    ≡ some ((4 ∷ 2 ∷ 1 ∷ 3 ∷ []) ∷ (9 ∷ []) ∷ [])
push_new_scope-push_all_example = push_new_scope-push_all pushes ((9 ∷ []) ∷ [])
