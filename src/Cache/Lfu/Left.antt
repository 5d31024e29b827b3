-- ===== src/Cache/Lfu/Left.antt =====
-- A key leaves the bucket of its count, and `minUsed` follows.
use common_tools.Prelude.{
  ℕ, zero, suc, ◌+◌, ◌<◌, ◌≤◌, ◌≡◌, ◌≢◌, ◌↔◌, refl, sym, subst, ap, Bool, true, false, ◌&&◌, none,
  some, arith, ◌==◌, Bool-cases, inl, inr, ◌⊎◌,
}
use common_tools.Prelude.Run.{Returns, returns}
use common_tools.Basic.LinkedHashMap.{LinkedHashMap, remove}
use common_tools.Cache.Lfu.{LfuCache, set_entry, set_bucket, leave}
use common_tools.Cache.Lfu.Bucket.{In, remove-IsBucket, stays, stayed, empty-In, some-In}
use common_tools.Cache.Lfu.Counts.{Buckets, left-Buckets, dropped-Buckets, Buckets-of_same}

-- A key other than `k` has the count `n`.
abbrev pub Other : {K : Type 0} → (K → K → Bool) → K → (K → ℕ) → ℕ → Type 0
Other {K} same k f n = (j : K) × (same j k ≡ false) × (0 < f j) × (f j ≡ n)

module _ {K V : Type 0} (same : K → K → Bool)
    (same_iff : (a b : K) → (same a b ≡ true) ↔ (a ≡ b)) where
  -- No count is below `minUsed`.
  abbrev pub Least : LfuCache K V → Type 0
  Least c = (j : K) → 0 < c.freq j → c.min_used ≤ c.freq j

  -- `minUsed` is the count of a key, or it is 1 and `k` is new.
  abbrev pub Low : K → LfuCache K V → Type 0
  Low k c =
      ((c.freq k ≡ 0) × (c.min_used ≡ 1))
      ⊎ ((0 < c.freq k) × ((j : K) × (0 < c.freq j) × (c.freq j ≡ c.min_used)))

  pub record Left (k : K) (c d : LfuCache K V) : Type 0 where
    pub buckets : Buckets same same_iff d.freq_map (set_entry same k 0 c.freq)
    pub freq : d.freq ≡ c.freq
    pub item_map : d.item_map ≡ c.item_map
    pub items : d.items ≡ c.items
    pub capacity : d.capacity ≡ c.capacity
    pub least : (j : K) → same j k ≡ false → 0 < c.freq j → d.min_used ≤ c.freq j
    pub bounded : d.min_used ≤ c.freq k + 1
    pub low : (d.min_used ≡ c.freq k + 1) ⊎ Other same k c.freq d.min_used

  module _ (k : K) (c : LfuCache K V) (w : Buckets same same_iff c.freq_map c.freq)
      (least : Least c) where
    -- A key without a count is in no bucket.
    new-Left : c.freq k ≡ 0 → c.min_used ≡ 1 → Left k c c
    new-Left none_yet one = record {
      buckets =
          Buckets-of_same same same_iff c.freq_map c.freq_map c.freq (set_entry same k 0 c.freq)
            (λ n. refl)
            (λ j. elim (Bool-cases (same j k)) [
              | inl it ↦
                  let e : c.freq j ≡ c.freq k = ap c.freq ((same_iff j k).0 it) in
                  ground (arith, it, e, none_yet)
              | inr apart ↦ ground (arith, apart)
            ])
            w;
      freq = refl;
      item_map = refl;
      items = refl;
      capacity = refl;
      least = λ j apart pos. least j pos;
      bounded = omega (arith, none_yet, one);
      low = inl (omega (arith, none_yet, one));
    }

    module _ (n : ℕ) (b : LinkedHashMap K Unit) (pos : 0 < n) (count : c.freq k ≡ n)
        (at : c.freq_map n ≡ some b) where
      rest : LinkedHashMap K Unit
      rest = remove same k b

      -- The bucket was the lowest, and is empty now.
      lifted-Left :
          n ≡ c.min_used
          → rest.len ≡ 0
          → Left k c (record c { freq_map = set_bucket n none c.freq_map; min_used = n + 1 })
      unfolding rest
      lifted-Left lowest empty =
          let stored = left-Buckets same same_iff c.freq_map c.freq w k n b at count in
          let f0 = set_entry same k 0 c.freq in
          let m1 = set_bucket n (some rest) c.freq_map in
          record {
            buckets =
                Buckets-of_same same same_iff (set_bucket n none m1) (set_bucket n none c.freq_map)
                  f0 f0 (λ i. ground arith) (λ j. refl)
                  (dropped-Buckets same same_iff m1 f0 stored n rest (ground arith) empty);
            freq = refl;
            item_map = refl;
            items = refl;
            capacity = refl;
            least = λ j apart more. elim (Bool-cases (c.freq j == n)) [
              | inl too ↦
                  let (b2, at2, inside) = w.there j n pos (ground (arith, too)) in
                  let same_bucket : b2 ≡ b = ground (arith, at, at2) in
                  absurd (
                    empty-In same same_iff j rest
                      (remove-IsBucket same same_iff k b (w.bucket n b at)) empty
                      (stays same same_iff k j b apart
                        (subst (In same same_iff j) same_bucket inside)))
              | inr other ↦ ground (arith, least j more, lowest, other)
            ];
            bounded = omega (arith, count);
            low = inl (omega (arith, count));
          }

      -- Otherwise `minUsed` stays.
      kept-Left :
          ((n == c.min_used) && (rest.len == 0)) ≡ false
          → (j : K) → 0 < c.freq j
          → c.freq j ≡ c.min_used
          → Left k c (record c { freq_map = set_bucket n (some rest) c.freq_map })
      unfolding rest
      kept-Left stays_put l used at_least = record {
        buckets = left-Buckets same same_iff c.freq_map c.freq w k n b at count;
        freq = refl;
        item_map = refl;
        items = refl;
        capacity = refl;
        least = λ j apart more. least j more;
        bounded = omega (arith, least k, count, pos);
        low = elim (Bool-cases (n == c.min_used)) [
          | inl lowest ↦
              let more : rest.len ≢ 0 = ground (arith, stays_put, lowest) in
              let (j, inside) =
                some-In same same_iff rest (remove-IsBucket same same_iff k b (w.bucket n b at))
                  more in
              let (apart, before) = stayed same same_iff k j b inside in
              let h = w.held n b j at before in
              inr (j, apart, omega (arith, h.0, h.1), ground (arith, h.0, lowest))
          | inr higher ↦ elim (Bool-cases (same l k)) [
            | inl it ↦
                let e : c.freq l ≡ c.freq k = ap c.freq ((same_iff l k).0 it) in
                absurd (ground (arith, e, count, at_least, higher))
            | inr apart ↦ inr (l, apart, used, at_least)
          ]
        ];
      }

    pub leave-Left : Low k c → Returns (Left k c) (leave same k (c.freq k) c)
    unfolding leave rest
    leave-Left (inl (none_yet, one)) =
        subst (λ n. Returns (Left k c) (leave same k n c)) (sym none_yet)
          (returns c (new-Left none_yet one))
    leave-Left (inr (used, (l, some_use, at_least))) = go (c.freq k) refl
      where
        go : (n : ℕ) → c.freq k ≡ n → Returns (Left k c) (leave same k n c)
        go zero e = absurd (omega arith)
        go (suc n) e =
            let (b, at, _) = w.there k (suc n) (omega arith) e in
            elim (Bool-cases ((suc n == c.min_used) && ((remove same k b).len == 0))) [
              | inl up ↦
                  rw (at, up, leave)
                    (returns _ (
                      lifted-Left (suc n) b (omega arith) e at (ground (arith, up))
                        (ground (arith, up))))
              | inr stays_put ↦
                  rw (at, stays_put, leave)
                    (returns _
                      (kept-Left (suc n) b (omega arith) e at stays_put l some_use at_least))
            ]
