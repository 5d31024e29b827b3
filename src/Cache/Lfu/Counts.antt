-- ===== src/Cache/Lfu/Counts.antt =====
-- The buckets hold each key under its use count.
use common_tools.Prelude.{
  ℕ, ◌+◌, ◌<◌, ◌≡◌, ◌↔◌, sym, subst, ap, ◌∙◌, Bool, true, Option, none, some, [], arith, ◌==◌,
  Bool-cases, Option-cases, inl, inr,
}
use common_tools.Basic.LinkedHashMap.{Node, LinkedHashMap, remove}
use common_tools.Basic.LinkedHashMap.Ends.{new-Holds}
use common_tools.Cache.Lfu.{set_entry, set_bucket, bucket_or_new}
use common_tools.Cache.Lfu.Bucket.{
  IsBucket, In, to_bucket, remove-IsBucket, stays, stayed, to_bucket-IsBucket, arrives, beside,
  empty-In,
}

module _ {K : Type 0} (same : K → K → Bool)
    (same_iff : (a b : K) → (same a b ≡ true) ↔ (a ≡ b)) where
  pub record Buckets (m : ℕ → Option (LinkedHashMap K Unit)) (f : K → ℕ) : Type 0 where
    pub bucket : (n : ℕ) (b : LinkedHashMap K Unit) → m n ≡ some b → IsBucket same same_iff b
    pub held :
        (n : ℕ) (b : LinkedHashMap K Unit) (j : K)
        → m n ≡ some b
        → In same same_iff j b
        → (f j ≡ n) × (0 < n)
    pub there :
        (j : K) (n : ℕ)
        → 0 < n
        → f j ≡ n
        → (b : LinkedHashMap K Unit) × (m n ≡ some b) × In same same_iff j b

  module _ (m : ℕ → Option (LinkedHashMap K Unit)) (f : K → ℕ) (w : Buckets m f) where
    -- The key leaves its bucket, which then is stored.
    pub left-Buckets :
        (k : K) (n : ℕ) (b : LinkedHashMap K Unit)
        → m n ≡ some b
        → f k ≡ n
        → Buckets (set_bucket n (some (remove same k b)) m) (set_entry same k 0 f)
    left-Buckets k n b at count = record {
      bucket = λ i c e. elim (Bool-cases (i == n)) [
        | inl here ↦
            let same_bucket : remove same k b ≡ c = ground (arith, e, here) in
            subst (IsBucket same same_iff) same_bucket
              (remove-IsBucket same same_iff k b (w.bucket n b at))
        | inr other ↦ w.bucket i c (ground (arith, e, other))
      ];
      held = λ i c j e inside. elim (Bool-cases (i == n)) [
        | inl here ↦
            let same_bucket : c ≡ remove same k b = ground (arith, e, here) in
            let (apart, before) =
              stayed same same_iff k j b (subst (In same same_iff j) same_bucket inside) in
            (
              ground (arith, apart, here, w.held n b j at before),
              ground (arith, here, w.held n b j at before),
            )
        | inr other ↦
            let e0 : m i ≡ some c = ground (arith, e, other) in
            let c0 = w.held i c j e0 inside in
            elim (Bool-cases (same j k)) [
              | inl it ↦
                  let c1 : f j ≡ f k = ap f ((same_iff j k).0 it) in
                  absurd (ground (arith, c0.0, c1, count, other))
              | inr apart ↦ (ground (arith, apart, c0.0), c0.1)
            ]
      ];
      there = λ j i pos e. elim (Bool-cases (same j k)) [
        | inl it ↦ absurd (ground (arith, e, it, pos))
        | inr apart ↦
            let (c, e1, inside) = w.there j i pos (ground (arith, e, apart)) in
            elim (Bool-cases (i == n)) [
              | inl here ↦
                  let same_bucket : c ≡ b = ground (arith, e1, at, here) in
                  (
                    remove same k b,
                    ground (arith, here),
                    stays same same_iff k j b apart (subst (In same same_iff j) same_bucket inside),
                  )
              | inr other ↦ (c, ground (arith, other, e1), inside)
            ]
      ];
    }

    -- A bucket without a key can be dropped.
    pub dropped-Buckets :
        (n : ℕ) (b : LinkedHashMap K Unit)
        → m n ≡ some b
        → b.len ≡ 0
        → Buckets (set_bucket n none m) f
    dropped-Buckets n b at empty = record {
      bucket = λ i c e. w.bucket i c (ground (arith, e));
      held = λ i c j e inside. w.held i c j (ground (arith, e)) inside;
      there = λ j i pos e.
          let (c, e1, inside) = w.there j i pos e in
          elim (Bool-cases (i == n)) [
            | inl here ↦
                let same_bucket : c ≡ b = ground (arith, e1, at, here) in
                absurd (
                  empty-In same same_iff j b (w.bucket n b at) empty
                    (subst (In same same_iff j) same_bucket inside))
            | inr other ↦ (c, ground (arith, other, e1), inside)
          ];
    }

    old-IsBucket :
        (heap : ℕ → Node K Unit) (n : ℕ) → IsBucket same same_iff (bucket_or_new heap (m n))
    old-IsBucket heap n = elim (Option-cases (m n)) [
      | inl miss ↦ rw miss ([], new-Holds same same_iff heap 0)
      | inr (b, hit) ↦ rw hit (w.bucket n b hit)
    ]

    old_held :
        (heap : ℕ → Node K Unit) (n : ℕ) (j : K)
        → In same same_iff j (bucket_or_new heap (m n))
        → (f j ≡ n) × (0 < n)
    old_held heap n j (i, e) = elim (Option-cases (m n)) [
      | inl miss ↦ absurd (ground (arith, e, miss))
      | inr (b, hit) ↦ w.held n b j hit (i, ground (arith, e, hit))
    ]

    -- A key that is in no bucket comes into one.
    pub arrived-Buckets :
        (heap : ℕ → Node K Unit) (k : K) (n : ℕ)
        → f k ≡ 0
        → Buckets
            (set_bucket
              (n + 1)
              (some (to_bucket same same_iff k (bucket_or_new heap (m (n + 1)))))
              m)
            (set_entry same k (n + 1) f)
    arrived-Buckets heap k n out =
        let b = bucket_or_new heap (m (n + 1)) in
        record {
          bucket = λ i c e. elim (Bool-cases (i == n + 1)) [
            | inl here ↦
                let same_bucket : to_bucket same same_iff k b ≡ c = ground (arith, e, here) in
                subst (IsBucket same same_iff) same_bucket
                  (to_bucket-IsBucket same same_iff k b (old-IsBucket heap (n + 1)))
            | inr other ↦ w.bucket i c (ground (arith, e, other))
          ];
          held = λ i c j e inside. elim (Bool-cases (i == n + 1)) [
            | inl here ↦
                let same_bucket : c ≡ to_bucket same same_iff k b = ground (arith, e, here) in
                elim (Bool-cases (same j k)) [
                  | inl it ↦ (ground (arith, it, here), ground (arith, here))
                  | inr apart ↦
                      let (x, at) = subst (In same same_iff j) same_bucket inside in
                      let before =
                        old_held heap (n + 1) j (x, beside same same_iff k j b apart ∙ at) in
                      (ground (arith, apart, here, before.0), ground (arith, here))
                ]
            | inr other ↦
                let c0 = w.held i c j (ground (arith, e, other)) inside in
                elim (Bool-cases (same j k)) [
                  | inl it ↦
                      let c1 : f j ≡ f k = ap f ((same_iff j k).0 it) in
                      absurd (omega (arith, c0.0, c0.1, c1, out))
                  | inr apart ↦ (ground (arith, apart, c0.0), c0.1)
                ]
          ];
          there = λ j i pos e. elim (Bool-cases (same j k)) [
            | inl it ↦
                let here : i ≡ n + 1 = ground (arith, e, it) in
                (
                  to_bucket same same_iff k b,
                  ground (arith, here),
                  subst (λ l. In same same_iff l (to_bucket same same_iff k b))
                      (sym ((same_iff j k).0 it)) (arrives same same_iff k b),
                )
            | inr apart ↦
                let (c, e1, (x, at)) = w.there j i pos (ground (arith, e, apart)) in
                elim (Bool-cases (i == n + 1)) [
                  | inl here ↦
                      let same_bucket : c ≡ b = ground (arith, e1, here) in
                      let kept : b.item_map j ≡ some x =
                        ap (λ d. d.item_map j) (sym same_bucket) ∙ at in
                      (
                        to_bucket same same_iff k b,
                        ground (arith, here),
                        (x, sym (beside same same_iff k j b apart) ∙ kept),
                      )
                  | inr other ↦ (c, ground (arith, other, e1), (x, at))
                ]
          ];
        }

  pub Buckets-of_same :
      (m m' : ℕ → Option (LinkedHashMap K Unit)) (f f' : K → ℕ)
      → ((n : ℕ) → m' n ≡ m n)
      → ((j : K) → f' j ≡ f j)
      → Buckets m f
      → Buckets m' f'
  Buckets-of_same m m' f f' same_m same_f w = record {
    bucket = λ n b e. w.bucket n b (sym (same_m n) ∙ e);
    held =
        λ n b j e inside. let h = w.held n b j (sym (same_m n) ∙ e) inside in (same_f j ∙ h.0, h.1);
    there = λ j n pos e.
        let (b, at, inside) = w.there j n pos (sym (same_f j) ∙ e) in (b, same_m n ∙ at, inside);
  }
