-- ===== src/Cache/Lfu/Bound.antt =====
-- `Put` keeps the cache in order and within its capacity, and drops a key that was used least.
use common_tools.Prelude.{
  ℕ, suc, ◌+◌, ◌<◌, ◌≤◌, ◌≡◌, ◌↔◌, refl, ap, ◌∙◌, Bool, true, false, none, some, arith,
  if◌then◌else◌, Bool-cases, inl, inr,
}
use common_tools.Prelude.Int.{ℤ, pos}
use common_tools.Prelude.Run.{Returns, Returns-weaken}
use common_tools.Basic.LinkedHashMap.{Node}
use common_tools.Cache.Lfu.{LfuCache, new_lfu_cache, put}
use common_tools.Cache.Lfu.Evict.{IsLfu}
use common_tools.Cache.Lfu.Fill.{Filled}
use common_tools.Cache.Lfu.Base.{Base, replaced, roomy, dropped, put-Base}

module _ {K V : Type 0} (same : K → K → Bool)
    (same_iff : (a b : K) → (same a b ≡ true) ↔ (a ≡ b)) where
  module _ (heap : ℕ → Node K Unit) (zero_key : K) where
    -- `Put`, on a cache in order with a capacity above 0 and no more entries than that, does not panic; after it the
    -- cache is in order and has no more entries than its capacity, and it holds the value for the key, with one use more.
    pub put-IsLfu :
        (k : K) (v : V) (n : ℕ) (c : LfuCache K V)
        → IsLfu same same_iff c
        → c.capacity ≡ pos (suc n)
        → c.items ≤ suc n
        → Returns
            (λ d.
              IsLfu same same_iff d
              × (d.capacity ≡ pos (suc n))
              × (d.items ≤ suc n)
              × (d.item_map k ≡ some v)
              × (d.freq k ≡ c.freq k + 1))
            (put same heap zero_key k v c)
    put-IsLfu k v n c w cap bound =
        Returns-weaken (put-Base same same_iff heap zero_key k v n c w cap)
          (λ d (e, b, f). go d e b f)
      where
        go :
            (d e : LfuCache K V)
            → Base same same_iff k c e
            → Filled same same_iff k v e d
            → IsLfu same same_iff d
              × (d.capacity ≡ pos (suc n))
              × (d.items ≤ suc n)
              × (d.item_map k ≡ some v)
              × (d.freq k ≡ c.freq k + 1)
        go d _ (replaced x hit) f =
            (f.valid, f.capacity ∙ cap, ground (arith, f.items, hit, bound), f.found, f.count)
        go d _ (roomy miss room) f = (
          f.valid,
          f.capacity ∙ cap,
          ground (arith, f.items, miss, bound, room, cap),
          f.found,
          f.count,
        )
        go d _ (dropped d0 g miss full e) f =
            let free : d0.item_map k ≡ none = ground (arith, ap (λ m. m k) e.item_map, miss) in
            let unused : d0.freq k ≡ c.freq k =
              ground (arith, ap (λ m. m k) e.freq, w.missing k miss) in
            (
              f.valid,
              f.capacity ∙ e.capacity ∙ cap,
              ground (arith, f.items, free, bound, e.items),
              f.found,
              ground (arith, f.count, unused),
            )

    -- `Put` of a new key into a full cache in order, with a capacity above 0: one key goes that was used no more often
    -- than any other, and the other entries stay, with their counts.
    pub put-Drops :
        (k : K) (v : V) (n : ℕ) (c : LfuCache K V)
        → IsLfu same same_iff c
        → c.capacity ≡ pos (suc n)
        → c.items ≡ suc n
        → c.item_map k ≡ none
        → Returns
            (λ d.
              (g : K) × (0 < c.freq g)
              × ((j : K) → 0 < c.freq j → c.freq g ≤ c.freq j)
              × (d.item_map g ≡ none)
              × ((j : K)
                  → same j k ≡ false
                  → same j g ≡ false
                  → (d.item_map j ≡ c.item_map j) × (d.freq j ≡ c.freq j)))
            (put same heap zero_key k v c)
    put-Drops k v n c w cap size new =
        Returns-weaken (put-Base same same_iff heap zero_key k v n c w cap)
          (λ d (e, b, f). go d e b f)
      where
        go :
            (d e : LfuCache K V)
            → Base same same_iff k c e
            → Filled same same_iff k v e d
            → (g : K) × (0 < c.freq g)
              × ((j : K) → 0 < c.freq j → c.freq g ≤ c.freq j)
              × (d.item_map g ≡ none)
              × ((j : K)
                  → same j k ≡ false
                  → same j g ≡ false
                  → (d.item_map j ≡ c.item_map j) × (d.freq j ≡ c.freq j))
        go d _ (replaced x hit) f = absurd (ground (arith, hit, new))
        go d _ (roomy miss room) f = absurd (ground (arith, room, cap, size))
        go d _ (dropped d0 g miss full e) f =
            let items : (j : K) → d0.item_map j ≡ (if same j g then none else c.item_map j) =
              λ j. ap (λ m. m j) e.item_map in
            let counts : (j : K) → d0.freq j ≡ (if same j g then 0 else c.freq j) =
              λ j. ap (λ m. m j) e.freq in
            let apart : same g k ≡ false = elim (Bool-cases (same g k)) [
              | inl it ↦
                  let same_count : c.freq g ≡ c.freq k = ap c.freq ((same_iff g k).0 it) in
                  absurd (omega (arith, same_count, w.missing k miss, e.used))
              | inr other ↦ other
            ] in
            let itself : same g g ≡ true = (same_iff g g).1 refl in
            (
              g,
              e.used,
              e.least_used,
              ground (arith, f.other_items g apart, items g, itself),
              λ j no_k no_g. (
                ground (arith, f.other_items j no_k, items j, no_g),
                ground (arith, f.other_counts j no_k, counts j, no_g),
              ),
            )

    -- `Put`, on a cache in order with a capacity above 0, of a key that is there, or into a cache that is
    -- not full, leaves the other entries and their counts alone.
    pub put-Keeps :
        (k : K) (v : V) (n : ℕ) (c : LfuCache K V)
        → IsLfu same same_iff c
        → c.capacity ≡ pos (suc n)
        → (c.item_map k ≡ none → c.items < suc n)
        → Returns
            (λ d.
              (j : K) → same j k ≡ false → (d.item_map j ≡ c.item_map j) × (d.freq j ≡ c.freq j))
            (put same heap zero_key k v c)
    put-Keeps k v n c w cap room =
        Returns-weaken (put-Base same same_iff heap zero_key k v n c w cap)
          (λ d (e, b, f). go d e b f)
      where
        go :
            (d e : LfuCache K V)
            → Base same same_iff k c e
            → Filled same same_iff k v e d
            → (j : K) → same j k ≡ false
            → (d.item_map j ≡ c.item_map j) × (d.freq j ≡ c.freq j)
        go d _ (replaced x hit) f j no_k = (f.other_items j no_k, f.other_counts j no_k)
        go d _ (roomy miss free) f j no_k = (f.other_items j no_k, f.other_counts j no_k)
        go d _ (dropped d0 g miss full e) f j no_k = absurd (ground (arith, full, cap, room miss))

  -- A new cache is in order.
  pub new_lfu_cache-IsLfu : (capacity : ℤ) → IsLfu same same_iff (new_lfu_cache {V = V} capacity)
  new_lfu_cache-IsLfu capacity = record {
    buckets = record {
      bucket = λ n b e. absurd (ground (arith, e));
      held = λ n b j e inside. absurd (ground (arith, e));
      there = λ j n pos e. absurd (omega arith);
    };
    least = λ j pos. absurd (omega arith);
    lowest = λ j pos. absurd (omega arith);
    filled = λ pos. absurd (omega arith);
    missing = λ j e. refl;
    present = λ j v e. absurd (ground (arith, e));
  }
