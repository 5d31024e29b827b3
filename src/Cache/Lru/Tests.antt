-- ===== src/Cache/Lru/Tests.antt =====
-- A cache for two numbers.
use common_tools.Prelude.{ℕ, ◌≡◌, refl, Bool, none, some, List, [], ◌∷◌, ◌==◌, ==_iff}
use common_tools.Prelude.Int.{pos}
use common_tools.Prelude.Run.{panic, Returns}
use common_tools.Basic.LinkedHashMap.{Node, new_linked_hash_map}
use common_tools.Basic.LinkedHashMap.Entries.{lookup, delete, to_front}
use common_tools.Basic.LinkedHashMap.Refine.{Holds}
use common_tools.Basic.LinkedHashMap.Ends.{new-Holds}
use common_tools.Cache.Lru.{LruCache, new_lru_cache, store, put, get}
use common_tools.Cache.Lru.Store.{store_refines}
use common_tools.Cache.Lru.Bound.{bounded, put_bounds, get_touches}

abbrev same : ℕ → ℕ → Bool
same a b = a == b

abbrev blank : ℕ → Node ℕ ℕ
blank i = record { key = 0; value = 0; prev = none; next = none }

abbrev full : LruCache ℕ ℕ
full = record {
  capacity = 2;
  list = store same 2 20 (store same 1 10 (new_linked_hash_map blank 0));
}

full-Holds : Holds same ==_iff full.list ((2, 20) ∷ (1, 10) ∷ [])
full-Holds =
    store_refines same ==_iff 2 20 (store same 1 10 (new_linked_hash_map blank 0)) ((1, 10) ∷ []) (
      store_refines same ==_iff 1 10 (new_linked_hash_map blank 0) []
        (new-Holds same ==_iff blank 0))

no_room : new_lru_cache (pos 0) blank 0 ≡ panic
unfolding new_lru_cache
no_room = refl

found : (get same 1 full).1 ≡ some 10
unfolding get store
found = refl

put_bounds_example :
    Returns
      (λ r.
        (r.capacity ≡ 2)
        × Holds same ==_iff r.list
            (bounded same ==_iff 2 ((3, 30) ∷ delete same 3 ((2, 20) ∷ (1, 10) ∷ []))))
      (put same 3 30 full)
put_bounds_example = put_bounds same ==_iff 3 30 full ((2, 20) ∷ (1, 10) ∷ []) full-Holds

-- The entry that was used longest ago is gone.
evicted :
    let es : List (ℕ × ℕ) = (3, 30) ∷ (2, 20) ∷ (1, 10) ∷ [] in
    bounded same ==_iff 2 es ≡ (3, 30) ∷ (2, 20) ∷ []
evicted = refl

get_touches_example :
    ((get same 1 full).1 ≡ lookup same 1 ((2, 20) ∷ (1, 10) ∷ []))
    × ((get same 1 full).0.capacity ≡ 2)
    × Holds same ==_iff (get same 1 full).0.list (to_front same 1 ((2, 20) ∷ (1, 10) ∷ []))
get_touches_example = get_touches same ==_iff 1 full ((2, 20) ∷ (1, 10) ∷ []) full-Holds
