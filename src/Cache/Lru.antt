-- ===== src/Cache/Lru.antt =====
-- pkg/cache/lru.go: a map bounded by a capacity, from which the entry that was used longest ago leaves. The
-- nodes and the fields `itemMap`, `head` and `tail` are those of a linked hash map, whose record
-- stands for them here. `Get` gives back the read lock between its two steps.
pub mod Touch
pub mod Equal
pub mod Store
pub mod Evict
pub mod Bound
mod Tests
use common_tools.Prelude.{
  zero, suc, ℕ, ◌+◌, ◌-◌, Bool, true, false, Option, none, some, ◌==◌, ltb, if◌then◌else◌,
}
use common_tools.Prelude.Int.{ℤ, pos, negsuc}
use common_tools.Prelude.Run.{Run, ok, panic, ◌>>=◌}
use common_tools.Basic.Chain.{is_at, or_else}
use common_tools.Basic.LinkedHashMap.{
  Node, LinkedHashMap, store_node, set_next, set_prev, map_set, new_linked_hash_map,
}

pub record LruCache (K T : Type 0) : Type 0 where
  pub capacity : ℕ
  pub list : LinkedHashMap K T

-- `NewLRUCache` panics unless the capacity is positive. The heap is that of the program.
unfoldable pub new_lru_cache : {K T : Type 0} → ℤ → (ℕ → Node K T) → ℕ → Run (LruCache K T)
new_lru_cache (pos zero) nodes fresh = panic
new_lru_cache (pos (suc n)) nodes fresh =
    ok (record { capacity = suc n; list = new_linked_hash_map nodes fresh })
new_lru_cache (negsuc n) nodes fresh = panic

module _ {K T : Type 0} where
  -- The end of `moveToHead`: the node, which is in no list, comes before `head`.
  unfoldable pub attach : Option ℕ → ℕ → LinkedHashMap K T → LinkedHashMap K T
  attach none n m = record m { head = some n; tail = some n }
  attach (some h) n m = record m {
    nodes =
        set_prev (some n) none (set_next (some n) (some h) (set_prev (some h) (some n) m.nodes));
    head = some n;
  }

  -- `moveToHead`
  unfoldable pub touch : ℕ → LinkedHashMap K T → LinkedHashMap K T
  unfolding attach
  touch n m =
      let nodes1 = set_next (m.nodes n).prev (m.nodes n).next m.nodes in
      let nodes2 = set_prev (nodes1 n).next (nodes1 n).prev nodes1 in
      let tail = if is_at m.tail n then (nodes2 n).prev else m.tail in
      if is_at m.head n then m else attach m.head n (record m { nodes = nodes2; tail = tail })

  module _ (same : K → K → Bool) where
    -- `delete(itemMap, key)`, once the tail `t` of `m` is cut off.
    abbrev pub forget : ℕ → LinkedHashMap K T → LinkedHashMap K T → LinkedHashMap K T
    forget t m c = record c {
      item_map = map_set same (m.nodes t).key none m.item_map;
      len = m.len - 1;
    }

    -- `removeTail`, from the node before the tail, and from the tail; a missing one is a nil pointer.
    unfoldable pub cut_before : Option ℕ → ℕ → LinkedHashMap K T → Run (LinkedHashMap K T)
    cut_before none t m = panic
    cut_before (some p) t m =
        ok (forget t m (record m { nodes = set_next (some p) none m.nodes; tail = some p }))

    unfoldable pub cut_tail : Option ℕ → LinkedHashMap K T → Run (LinkedHashMap K T)
    unfolding cut_before
    cut_tail none m = panic
    cut_tail (some t) m =
        if m.len == 1
        then ok (forget t m (record m { head = none; tail = none }))
        else cut_before (m.nodes t).prev t m

    unfoldable pub remove_tail : LinkedHashMap K T → Run (LinkedHashMap K T)
    unfolding cut_tail
    remove_tail m = cut_tail m.tail m

    unfoldable pub get : K → LruCache K T → LruCache K T × Option T
    unfolding touch
    get k c = elim (c.list.item_map k) [
      | none ↦ (c, none)
      | some n ↦ (record c { list = touch n c.list }, some (c.list.nodes n).value)
    ]

    -- `Put` before the test of the capacity.
    unfoldable pub store : K → T → LinkedHashMap K T → LinkedHashMap K T
    unfolding touch
    store k v m = elim (m.item_map k) [
      | none ↦
          let n = m.fresh in
          let node : Node K T = record { key = k; value = v; prev = none; next = none } in
          let m1 = touch n (record m { nodes = store_node n node m.nodes; fresh = n + 1 }) in
          record m1 { item_map = map_set same k (some n) m1.item_map; len = m.len + 1 }
      | some n ↦
          let m1 =
            touch n
              (record m { nodes = store_node n (record (m.nodes n) { value = v }) m.nodes }) in
          record m1 { item_map = map_set same k (some n) m1.item_map }
    ]

    unfoldable pub put : K → T → LruCache K T → Run (LruCache K T)
    unfolding store remove_tail
    put k v c =
        let m = store k v c.list in
        let evict = remove_tail m >>= λ r. ok (record c { list = r }) in
        if ltb c.capacity m.len then evict else ok (record c { list = m })
