-- ===== src/ScopedMap/Tests.antt =====
-- The laws of the scopes on two small ones.
use amun.Prelude.{ℕ, ◌≡◌, List, [], ◌∷◌, some, true}
use amun.Prelude.Text.{Bytes, codes, equal}
use amun.ScopedMap.{
  define, is_defined, update, lookup, lookup_with_level, push_new_scope, pop_current_scope,
}
use amun.ScopedMap.Laws.{map_snd, AtLevel, define-lookup, update-lookup, lookup_with_level-lookup}
use amun.ScopedMap.Shadows.{
  define_all, then_pop, lookup_after, push-define_all-pop, update-pop-lookup,
}

abbrev outer : List (Bytes × ℕ)
outer = (codes "a", 1) ∷ (codes "b", 2) ∷ []

abbrev inner : List (Bytes × ℕ)
inner = (codes "a", 3) ∷ []

abbrev both : List (List (Bytes × ℕ))
both = inner ∷ outer ∷ []

define-lookup_example :
    map_snd (lookup (codes "a")) (define (codes "b") 4 both) ≡ some (true, some 3)
unfolding lookup equal
define-lookup_example = define-lookup (codes "b") 4 inner (outer ∷ []) (codes "a")

update-lookup_example : lookup (codes "a") (update (codes "a") 5 both) ≡ some 5
unfolding is_defined equal
update-lookup_example = update-lookup (codes "a") 5 both (codes "a")

lookup_with_level-lookup_example :
    ((lookup_with_level (codes "b") both).0 ≡ lookup (codes "b") both)
    × AtLevel (codes "b") both (lookup_with_level (codes "b") both)
lookup_with_level-lookup_example = lookup_with_level-lookup (codes "b") both

push-define_all-pop_example : then_pop (define_all outer (some (push_new_scope both))) ≡ some both
push-define_all-pop_example = push-define_all-pop outer both

update-pop-lookup_example :
    lookup_after (codes "a") (pop_current_scope (update (codes "a") 5 both)) ≡ some 5
unfolding is_defined equal
update-pop-lookup_example = update-pop-lookup (codes "a") 5 inner (outer ∷ [])
