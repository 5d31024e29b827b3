-- ===== src/Cache/Lfu/Evict.antt =====
-- What `increase` does, and which key `Put` drops.
use common_tools.Prelude.{
  ℕ, ◌+◌, ◌<◌, ◌≤◌, ◌≡◌, ◌↔◌, refl, ap, ◌∙◌, Bool, true, none, some, arith, if◌then◌else◌,
  Bool-cases, Option-cases, inl, inr,
}
use common_tools.Prelude.Run.{Returns, returns, Returns-bind, Run, ok}
use common_tools.Basic.LinkedHashMap.{Node, remove, remove_last}
use common_tools.Cache.Lfu.{
  LfuCache, set_entry, set_bucket, arrive, increase, forget, evict, or_zero,
}
use common_tools.Cache.Lfu.Bucket.{remove_last-takes}
use common_tools.Cache.Lfu.Counts.{Buckets, left-Buckets, arrived-Buckets, Buckets-of_same}
use common_tools.Cache.Lfu.Left.{Least, Low, Left, leave-Left}

module _ {K V : Type 0} (same : K → K → Bool)
    (same_iff : (a b : K) → (same a b ≡ true) ↔ (a ≡ b)) where
  -- The buckets hold the keys of the map under their counts, and `minUsed` is the lowest count.
  pub record IsLfu (c : LfuCache K V) : Type 0 where
    pub buckets : Buckets same same_iff c.freq_map c.freq
    pub least : Least same same_iff c
    pub lowest : (k : K) → 0 < c.freq k → (j : K) × (0 < c.freq j) × (c.freq j ≡ c.min_used)
    pub filled : 0 < c.items → (k : K) × (0 < c.freq k)
    pub missing : (k : K) → c.item_map k ≡ none → c.freq k ≡ 0
    pub present : (k : K) (v : V) → c.item_map k ≡ some v → 0 < c.freq k

  -- What `increase` makes of the use counts.
  pub record Increased (k : K) (c d : LfuCache K V) : Type 0 where
    pub buckets : Buckets same same_iff d.freq_map d.freq
    pub least : Least same same_iff d
    pub lowest : (j : K) × (0 < d.freq j) × (d.freq j ≡ d.min_used)
    pub freq : (j : K) → d.freq j ≡ (if same j k then c.freq k + 1 else c.freq j)
    pub item_map : d.item_map ≡ c.item_map
    pub items : d.items ≡ c.items
    pub capacity : d.capacity ≡ c.capacity

  module _ (heap : ℕ → Node K Unit) where
    arrive-Increased :
        (k : K) (c d : LfuCache K V)
        → Left same same_iff k c d
        → Increased k c (arrive same heap k (c.freq k) d)
    unfolding arrive
    arrive-Increased k c d l =
        let n = c.freq k in
        let mine : same k k ≡ true = (same_iff k k).1 refl in
        let f0 = set_entry same k 0 c.freq in
        let old : (j : K) → d.freq j ≡ c.freq j = λ j. ap (λ f. f j) l.freq in
        let d1 = arrive same heap k n d in
        record {
          buckets =
              Buckets-of_same same same_iff d1.freq_map d1.freq_map (set_entry same k (n + 1) f0)
                d1.freq (λ i. refl) (λ j. ground (arith, old j))
                (arrived-Buckets same same_iff d.freq_map f0 l.buckets heap k n
                  (ground (arith, mine)));
          least = λ j pos. elim (Bool-cases (same j k)) [
            | inl it ↦ ground (arith, it, l.bounded)
            | inr apart ↦ ground (arith, apart, old j, l.least j apart, pos)
          ];
          lowest = elim l.low [
            | inl mine_is ↦ (k, ground (arith, mine), ground (arith, mine, mine_is))
            | inr (j, apart, pos, e) ↦
                (j, ground (arith, apart, old j, pos), ground (arith, apart, old j, e))
          ];
          freq = λ j. ground (arith, old j);
          item_map = l.item_map;
          items = l.items;
          capacity = l.capacity;
        }

    pub increase-Increased :
        (k : K) (c : LfuCache K V)
        → Buckets same same_iff c.freq_map c.freq
        → Least same same_iff c
        → Low same same_iff k c
        → Returns (Increased k c) (increase same heap k c)
    unfolding increase
    increase-Increased k c w least low =
        Returns-bind _ (leave-Left same same_iff k c w least low)
          (λ d l. returns _ (arrive-Increased k c d l))

  -- A key that was used least often is gone.
  pub record Evicted (c d : LfuCache K V) (g : K) : Type 0 where
    pub used : 0 < c.freq g
    pub least_used : (j : K) → 0 < c.freq j → c.freq g ≤ c.freq j
    pub buckets : Buckets same same_iff d.freq_map d.freq
    pub freq : d.freq ≡ set_entry same g 0 c.freq
    pub item_map : d.item_map ≡ set_entry same g none c.item_map
    pub items : d.items + 1 ≡ c.items
    pub capacity : d.capacity ≡ c.capacity

  pub evict-Evicted :
      (zero_key : K) (c : LfuCache K V)
      → IsLfu c
      → 0 < c.items
      → Returns (λ d. (g : K) × Evicted c d g) (evict same zero_key c)
  unfolding evict
  evict-Evicted zero_key c v pos =
      let (k0, used0) = v.filled pos in
      let (k, used, lowest) = v.lowest k0 used0 in
      let (b, at, held) = v.buckets.there k c.min_used (omega arith) lowest in
      let (g, inside, taken) =
        remove_last-takes same same_iff b (v.buckets.bucket c.min_used b at) k held in
      let count = (v.buckets.held c.min_used b g at inside).0 in
      let stored = left-Buckets same same_iff c.freq_map c.freq v.buckets g c.min_used b at count in
      let d =
        forget same g
          (record c { freq_map = set_bucket c.min_used (some (remove same g b)) c.freq_map }) in
      let result : evict same zero_key c ≡ ok d =
        ap
          (λ o. elim o [
            | none ↦ Run.panic
            | some b ↦
                let r = remove_last same b in
                ok (
                  forget same (or_zero zero_key r.1)
                    (record c { freq_map = set_bucket c.min_used (some r.0) c.freq_map }))
          ])
          at
        ∙ ap
            (λ r. ok (
              forget same (or_zero zero_key r.1)
                (record c { freq_map = set_bucket c.min_used (some r.0) c.freq_map })))
            taken in
      let fewer : d.items + 1 ≡ c.items = elim (Option-cases (c.item_map g)) [
        | inl gone ↦ absurd (omega (arith, v.missing g gone, count, lowest))
        | inr (x, there) ↦ ground (arith, there)
      ] in
      (
        d,
        result,
        (
          g,
          record {
            used = omega (arith, count, lowest);
            least_used = λ j more. omega (arith, count, v.least j more);
            buckets = stored;
            freq = refl;
            item_map = refl;
            items = fewer;
            capacity = refl;
          },
        ),
      )
