-- ===== src/Cache/Lru/Bound.antt =====
-- `Get` and `Put` refine a bounded list of entries, the one used last in front.
use common_tools.Prelude.{
  ℕ, ◌≡◌, ◌↔◌, refl, sym, subst, ◌∙◌, Bool, true, false, none, some, List, ◌∷◌, length, arith, ltb,
  if◌then◌else◌, Option-cases, inl, inr,
}
use common_tools.Prelude.Run.{Returns, returns, Returns-if, Returns-bind}
use common_tools.Basic.LinkedHashMap.{
  Node, LinkedHashMap, store_node, set_next, set_prev, map_set, unlink, remove,
}
use common_tools.Basic.LinkedHashMap.Entries.{lookup, delete, to_front}
use common_tools.Basic.LinkedHashMap.Refine.{IsMap, Holds}
use common_tools.Basic.LinkedHashMap.Refine
use common_tools.Basic.LinkedHashMap
use common_tools.Basic.LinkedHashMap.Ends.{last_key, without, size_lem}
use common_tools.Cache.Lru.{LruCache, store, get, put}
use common_tools.Cache.Lru.Equal.{touch_refines}
use common_tools.Cache.Lru.Store.{store_refines}
use common_tools.Cache.Lru.Evict.{remove_tail_refines}

module _ {K T : Type 0} (same : K → K → Bool)
    (same_iff : (a b : K) → (same a b ≡ true) ↔ (a ≡ b)) where
  -- The bound: one entry too many leaves at the end.
  abbrev pub bounded : ℕ → List (K × T) → List (K × T)
  bounded cap es =
      if ltb cap (length es) then without same same_iff (last_key same same_iff es) es else es

  -- `Put` puts the entry in front, with any old one of its key gone; if there are then more entries than the capacity,
  -- the last one leaves, which was used longest ago. It does not panic.
  pub put_bounds :
      (k : K) (v : T) (c : LruCache K T) (es : List (K × T))
      → Holds same same_iff c.list es
      → Returns
          (λ r.
            (r.capacity ≡ c.capacity)
            × Holds same same_iff r.list (bounded c.capacity ((k, v) ∷ delete same k es)))
          (put same k v c)
  unfolding put
  put_bounds k v c es h =
      let m = store same k v c.list in
      let fs = (k, v) ∷ delete same k es in
      let stored = store_refines same same_iff k v c.list es h in
      let size = size_lem same same_iff m fs stored in
      let kept = λ (b : Bool) (r : LinkedHashMap K T).
        Holds same same_iff r
          (if b then without same same_iff (last_key same same_iff fs) fs else fs) in
      Returns-if (ltb c.capacity m.len)
        (λ over.
          let more : ltb c.capacity (length fs) ≡ true = ground (arith, over, size) in
          Returns-bind _ (remove_tail_refines same same_iff m fs (omega arith) stored)
            (λ r q. returns _ (refl, subst (λ b. kept b r) (sym more) q)))
        (λ fits.
          let all : ltb c.capacity (length fs) ≡ false = ground (arith, fits, size) in
          returns _ (refl, subst (λ b. kept b m) (sym all) stored))

  missing-lookup :
      (k : K) (m : LinkedHashMap K T) (es : List (K × T))
      → m.item_map k ≡ none
      → Holds same same_iff m es
      → lookup same k es ≡ none
  unfolding LinkedHashMap.get
  missing-lookup k m es miss h =
      let found : LinkedHashMap.get same k m ≡ none = rw (miss, LinkedHashMap.get) refl in
      sym (Refine.get_refines same same_iff k m es h) ∙ found

  hit-lookup :
      (k : K) (n : ℕ) (m : LinkedHashMap K T) (es : List (K × T))
      → m.item_map k ≡ some n
      → Holds same same_iff m es
      → some (m.nodes n).value ≡ lookup same k es
  unfolding LinkedHashMap.get
  hit-lookup k n m es hit h =
      let found : LinkedHashMap.get same k m ≡ some (m.nodes n).value =
        rw (hit, LinkedHashMap.get) refl in
      sym found ∙ Refine.get_refines same same_iff k m es h

  -- `Get` finds the value of the key, and moves its entry to the front.
  pub get_touches :
      (k : K) (c : LruCache K T) (es : List (K × T))
      → Holds same same_iff c.list es
      → ((get same k c).1 ≡ lookup same k es)
        × ((get same k c).0.capacity ≡ c.capacity)
        × Holds same same_iff (get same k c).0.list (to_front same k es)
  unfolding get
  get_touches k c es h = elim (Option-cases (c.list.item_map k)) [
    | inl miss ↦
        let nothing = missing-lookup k c.list es miss h in
        rw (miss, nothing, to_front, get) (refl, refl, h)
    | inr (n, hit) ↦
        let moved = touch_refines same same_iff k n c.list es hit h in
        let value = hit-lookup k n c.list es hit h in rw (hit, get) (value, refl, moved)
  ]
