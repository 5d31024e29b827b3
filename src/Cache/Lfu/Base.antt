-- ===== src/Cache/Lfu/Base.antt =====
-- What `Put` fills in: it drops a key first if the new one needs the room.
use common_tools.Prelude.{
  ℕ, suc, ◌≡◌, ◌↔◌, refl, ap, Bool, true, false, none, some, arith, if◌then◌else◌, Bool-cases,
  Option-cases, inl, inr,
}
use common_tools.Prelude.Int.{pos}
use common_tools.Prelude.Run.{Returns, Returns-bind, Returns-weaken}
use common_tools.Basic.LinkedHashMap.{Node}
use common_tools.Cache.Lfu.{LfuCache, is_full, fill, put}
use common_tools.Cache.Lfu.Evict.{IsLfu, Evicted, evict-Evicted}
use common_tools.Cache.Lfu.Fill.{Ready, Filled, fill-Filled}

module _ {K V : Type 0} (same : K → K → Bool)
    (same_iff : (a b : K) → (same a b ≡ true) ↔ (a ≡ b)) where
  -- What is filled in: the cache as it is, or without a key that was used least, if the new key needs the room.
  pub data Base (k : K) (c : LfuCache K V) : LfuCache K V → Type 0 where
    replaced : (v : V) → c.item_map k ≡ some v → Base k c c
    roomy :
        c.item_map k ≡ none
        → is_full c.items c.capacity ≡ false
        → Base k c (record c { min_used = 1 })
    dropped :
        (d : LfuCache K V) (g : K)
        → c.item_map k ≡ none
        → is_full c.items c.capacity ≡ true
        → Evicted same same_iff c d g
        → Base k c (record d { min_used = 1 })

  old-Ready :
      (k : K) (v : V) (c : LfuCache K V)
      → IsLfu same same_iff c
      → c.item_map k ≡ some v
      → Ready same same_iff k c
  old-Ready k v c w hit =
      let used = w.present k v hit in
      record {
        buckets = w.buckets;
        least = w.least;
        low = inr (used, w.lowest k used);
        missing = w.missing;
        present = w.present;
      }

  room-Ready :
      (k : K) (c : LfuCache K V)
      → IsLfu same same_iff c
      → c.item_map k ≡ none
      → Ready same same_iff k (record c { min_used = 1 })
  room-Ready k c w miss = record {
    buckets = w.buckets;
    least = λ j pos. pos;
    low = inl (w.missing k miss, refl);
    missing = w.missing;
    present = w.present;
  }

  drop-Ready :
      (k g : K) (c d : LfuCache K V)
      → IsLfu same same_iff c
      → c.item_map k ≡ none
      → Evicted same same_iff c d g
      → Ready same same_iff k (record d { min_used = 1 })
  drop-Ready k g c d w miss e =
      let freq : (j : K) → d.freq j ≡ (if same j g then 0 else c.freq j) =
        λ j. ap (λ f. f j) e.freq in
      let items : (j : K) → d.item_map j ≡ (if same j g then none else c.item_map j) =
        λ j. ap (λ f. f j) e.item_map in
      record {
        buckets = e.buckets;
        least = λ j pos. pos;
        low = inl (ground (arith, freq k, w.missing k miss), refl);
        missing = λ j m. ground (arith, freq j, w.missing j, items j, m);
        present = λ j v m. ground (arith, freq j, w.present j v, items j, m);
      }

  module _ (heap : ℕ → Node K Unit) (zero_key : K) where
    -- `Put` on a cache in order, whose capacity is not 0, fills in the entry.
    pub put-Base :
        (k : K) (v : V) (n : ℕ) (c : LfuCache K V)
        → IsLfu same same_iff c
        → c.capacity ≡ pos (suc n)
        → Returns
            (λ d. (e : LfuCache K V) × Base k c e × Filled same same_iff k v e d)
            (put same heap zero_key k v c)
    unfolding put
    put-Base k v n c w cap = elim (Option-cases (c.item_map k)) [
      | inr (x, hit) ↦
          rw (hit, put)
            (Returns-weaken (fill-Filled same same_iff heap k v c (old-Ready k x c w hit))
              (λ d f. (c, replaced x hit, f)))
      | inl miss ↦ elim (Bool-cases (is_full c.items c.capacity)) [
        | inr room ↦
            rw (miss, room, put)
              (Returns-weaken
                (fill-Filled same same_iff heap k v (record c { min_used = 1 })
                  (room-Ready k c w miss))
                (λ d f. (record c { min_used = 1 }, roomy miss room, f)))
        | inl full ↦
            rw (miss, full, put)
              (Returns-bind (λ d. fill same heap k v (record d { min_used = 1 }))
                (evict-Evicted same same_iff zero_key c w (ground (arith, full, cap)))
                (λ d (g, e).
                  Returns-weaken
                    (fill-Filled same same_iff heap k v (record d { min_used = 1 })
                      (drop-Ready k g c d w miss e))
                    (λ r f. (record d { min_used = 1 }, dropped d g miss full e, f))))
      ]
    ]
