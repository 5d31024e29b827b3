-- ===== src/Cache/Lfu/Tests.antt =====
-- A cache for two numbers, of which one is used more often.
use common_tools.Prelude.{
  ℕ, ◌+◌, ◌<◌, ◌≤◌, ◌≡◌, refl, sym, subst, ap, Bool, false, none, some, ◌==◌, ==_iff, arith,
}
use common_tools.Prelude.Int.{pos}
use common_tools.Prelude.Run.{Run, ok, panic, out_of_fuel, Returns, Returns-weaken}
use common_tools.Basic.LinkedHashMap.{Node}
use common_tools.Basic.LinkedHashMap
use common_tools.Cache.Lfu.{LfuCache, new_lfu_cache, put, get, increase, leave, arrive, evict, fill}
use common_tools.Cache.Lfu.Evict.{IsLfu}
use common_tools.Cache.Lfu.Fill.{Got, get_lem}
use common_tools.Cache.Lfu.Bound.{put-IsLfu, put-Drops, new_lfu_cache-IsLfu}

abbrev same : ℕ → ℕ → Bool
same a b = a == b

abbrev blank : ℕ → Node ℕ Unit
blank i = record { key = 0; value = tt; prev = none; next = none }

abbrev empty : LfuCache ℕ ℕ
empty = new_lfu_cache (pos 2)

-- The cache of a run, and an empty one if there is none.
abbrev after : Run (LfuCache ℕ ℕ) → LfuCache ℕ ℕ
after (ok c) = c
after panic = empty
after out_of_fuel = empty

after-Returns : (P : LfuCache ℕ ℕ → Type 0) (r : Run (LfuCache ℕ ℕ)) → Returns P r → P (after r)
after-Returns P r (c, e, p) = subst P (sym (ap after e)) p

-- The key 1 is put twice, then the key 2.
abbrev one_in : LfuCache ℕ ℕ
one_in = after (put same blank 0 1 10 empty)

abbrev one_twice : LfuCache ℕ ℕ
one_twice = after (put same blank 0 1 11 one_in)

abbrev full : LfuCache ℕ ℕ
full = after (put same blank 0 2 20 one_twice)

-- In order, and within a capacity of two.
abbrev Good : LfuCache ℕ ℕ → Type 0
Good c = IsLfu same ==_iff c × (c.capacity ≡ pos 2) × (c.items ≤ 2)

empty-Good : Good empty
empty-Good = (new_lfu_cache-IsLfu same ==_iff (pos 2), refl, omega arith)

put-Good : (k v : ℕ) (c : LfuCache ℕ ℕ) → Good c → Good (after (put same blank 0 k v c))
put-Good k v c (w, cap, bound) = after-Returns Good (put same blank 0 k v c) (
    Returns-weaken (put-IsLfu same ==_iff blank 0 k v 1 c w cap bound)
      (λ d (valid, same_cap, fits, _, _). (valid, same_cap, fits)))

full-Good : Good full
full-Good = put-Good 2 20 one_twice (put-Good 1 11 one_in (put-Good 1 10 empty empty-Good))

size_full : full.items ≡ 2
unfolding put fill increase leave arrive evict LinkedHashMap.put LinkedHashMap.move_to_head
    LinkedHashMap.remove
size_full = refl

new_key : full.item_map 3 ≡ none
unfolding put fill increase leave arrive evict LinkedHashMap.put LinkedHashMap.move_to_head
    LinkedHashMap.remove
new_key = refl

-- A third key takes the place of the key 2, which was used once, though the key 1 is older.
less_used : (after (put same blank 0 3 30 full)).item_map 2 ≡ none
unfolding put fill increase leave arrive evict LinkedHashMap.put LinkedHashMap.move_to_head
    LinkedHashMap.remove LinkedHashMap.remove_last
less_used = refl

more_used : (after (put same blank 0 3 30 full)).item_map 1 ≡ some 11
unfolding put fill increase leave arrive evict LinkedHashMap.put LinkedHashMap.move_to_head
    LinkedHashMap.remove LinkedHashMap.remove_last
more_used = refl

-- A capacity of 0, which `NewLFUCache` lets pass, has `Put` call a method of a bucket that is not there.
no_room : put {V = ℕ} same blank 0 1 10 (new_lfu_cache (pos 0)) ≡ panic
unfolding put evict
no_room = refl

put-IsLfu_example :
    Returns
      (λ d.
        IsLfu same ==_iff d
        × (d.capacity ≡ pos 2)
        × (d.items ≤ 2)
        × (d.item_map 3 ≡ some 30)
        × (d.freq 3 ≡ full.freq 3 + 1))
      (put same blank 0 3 30 full)
put-IsLfu_example = put-IsLfu same ==_iff blank 0 3 30 1 full full-Good.0 full-Good.1 full-Good.2

put-Drops_example :
    Returns
      (λ d.
        (g : ℕ) × (0 < full.freq g)
        × ((j : ℕ) → 0 < full.freq j → full.freq g ≤ full.freq j)
        × (d.item_map g ≡ none)
        × ((j : ℕ)
            → same j 3 ≡ false
            → same j g ≡ false
            → (d.item_map j ≡ full.item_map j) × (d.freq j ≡ full.freq j)))
      (put same blank 0 3 30 full)
put-Drops_example =
    put-Drops same ==_iff blank 0 3 30 1 full full-Good.0 full-Good.1 size_full new_key

get_lem_example : Returns (Got same ==_iff 1 full) (get same blank 1 full)
get_lem_example = get_lem same ==_iff blank 1 full full-Good.0
