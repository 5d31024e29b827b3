-- ===== src/Cache/Lfu.antt =====
-- pkg/cache/lfu.go: a bounded map from which an entry leaves that was used least often. The entries of one use
-- count stand in a linked hash map, which has a heap of its own here. `items` is `len(itemMap)`; a use count of 0 is a
-- key that `freq` lacks. A method is one step under the spin lock.
pub mod Bucket
pub mod Counts
pub mod Left
pub mod Evict
pub mod Fill
pub mod Base
pub mod Bound
mod Tests
use common_tools.Prelude.{
  ℕ, zero, suc, ◌+◌, ◌-◌, Bool, true, false, ◌&&◌, Option, none, some, ◌==◌, if◌then◌else◌,
}
use common_tools.Prelude.Int.{ℤ, pos, negsuc}
use common_tools.Prelude.Run.{Run, ok, panic, ◌>>=◌}
use common_tools.Basic.LinkedHashMap.{Node, LinkedHashMap, new_linked_hash_map}
use common_tools.Basic.LinkedHashMap

pub record LfuCache (K V : Type 0) : Type 0 where
  pub item_map : K → Option V
  pub items : ℕ
  pub freq : K → ℕ
  pub freq_map : ℕ → Option (LinkedHashMap K Unit)
  pub capacity : ℤ
  pub min_used : ℕ

-- `len(itemMap) == capacity`
abbrev pub is_full : ℕ → ℤ → Bool
is_full n (pos c) = n == c
is_full n (negsuc c) = false

-- `m[key] = v`, and `delete` where `v` is the zero count or `none`.
abbrev pub set_entry : {K A : Type 0} → (K → K → Bool) → K → A → (K → A) → K → A
set_entry same k v f j = if same j k then v else f j

abbrev pub set_bucket : {A : Type 0} → ℕ → A → (ℕ → A) → ℕ → A
set_bucket n v f i = if i == n then v else f i

-- `NewLFUCache`
abbrev pub new_lfu_cache : {K V : Type 0} → ℤ → LfuCache K V
new_lfu_cache capacity = record {
  item_map = λ k. none;
  items = 0;
  freq = λ k. 0;
  freq_map = λ n. none;
  capacity = capacity;
  min_used = 0;
}

-- The bucket of a count, which is made if it is missing.
abbrev pub bucket_or_new :
    {K : Type 0} → (ℕ → Node K Unit) → Option (LinkedHashMap K Unit) → LinkedHashMap K Unit
bucket_or_new heap none = new_linked_hash_map heap 0
bucket_or_new heap (some b) = b

-- `RemoveLast` gives the zero key if the bucket is empty.
abbrev pub or_zero : {K : Type 0} → K → Option K → K
or_zero zero_key none = zero_key
or_zero zero_key (some k) = k

module _ {K V : Type 0} (same : K → K → Bool) where
  -- The first half of `increase`: the key leaves the bucket of its count. A missing bucket is a nil pointer.
  unfoldable pub leave : K → ℕ → LfuCache K V → Run (LfuCache K V)
  leave k zero c = ok c
  leave k (suc n) c = elim (c.freq_map (suc n)) [
    | none ↦ panic
    | some b ↦
        let b1 = LinkedHashMap.remove same k b in
        if (suc n == c.min_used) && (b1.len == 0)
        then ok (record c { freq_map = set_bucket (suc n) none c.freq_map; min_used = suc n + 1 })
        else ok (record c { freq_map = set_bucket (suc n) (some b1) c.freq_map })
  ]

  -- `delete(freq, key)` and `delete(itemMap, key)`
  abbrev pub forget : K → LfuCache K V → LfuCache K V
  forget g c = record c {
    freq = set_entry same g 0 c.freq;
    item_map = set_entry same g none c.item_map;
    items = elim (c.item_map g) [ none ↦ c.items | some _ ↦ c.items - 1 ];
  }

  unfoldable pub evict : K → LfuCache K V → Run (LfuCache K V)
  evict zero_key c = elim (c.freq_map c.min_used) [
    | none ↦ panic
    | some b ↦
        let r = LinkedHashMap.remove_last same b in
        ok (
          forget (or_zero zero_key r.1)
            (record c { freq_map = set_bucket c.min_used (some r.0) c.freq_map }))
  ]

  module _ (heap : ℕ → Node K Unit) where
    -- The second half: the key comes to the front of the next bucket.
    unfoldable pub arrive : K → ℕ → LfuCache K V → LfuCache K V
    arrive k n c =
        let b = bucket_or_new heap (c.freq_map (n + 1)) in
        let b1 = LinkedHashMap.move_to_head same k (LinkedHashMap.put same k tt b) in
        record c {
          freq = set_entry same k (n + 1) c.freq;
          freq_map = set_bucket (n + 1) (some b1) c.freq_map;
        }

    unfoldable pub increase : K → LfuCache K V → Run (LfuCache K V)
    unfolding leave arrive
    increase k c = leave k (c.freq k) c >>= λ d. ok (arrive k (c.freq k) d)

    -- `itemMap[key] = value`, and `increase`
    unfoldable pub fill : K → V → LfuCache K V → Run (LfuCache K V)
    unfolding increase
    fill k v c = increase k (record c {
      item_map = set_entry same k (some v) c.item_map;
      items = elim (c.item_map k) [ none ↦ c.items + 1 | some _ ↦ c.items ];
    })

    unfoldable pub put : K → K → V → LfuCache K V → Run (LfuCache K V)
    unfolding evict fill
    put zero_key k v c = elim (c.item_map k) [
      | some _ ↦ fill k v c
      | none ↦
          let evicted = evict zero_key c in
          (if is_full c.items c.capacity then evicted else ok c) >>= λ d.
          fill k v (record d { min_used = 1 })
    ]

    unfoldable pub get : K → LfuCache K V → Run (LfuCache K V × Option V)
    unfolding increase
    get k c = elim (c.item_map k) [
      | none ↦ ok (c, none)
      | some v ↦ increase k c >>= λ d. ok (d, some v)
    ]
