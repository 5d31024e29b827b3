-- ===== src/Cache/Lfu/Bucket.antt =====
-- What a cache needs of a bucket: which keys it holds.
use common_tools.Prelude.{
  ℕ, ◌≡◌, ◌≢◌, ◌↔◌, refl, sym, ap, ◌∙◌, Bool, true, false, none, some, List, [], ◌∷◌, arith,
  if◌then◌else◌, Bool-cases, Option-cases, inl, inr,
}
use common_tools.Basic.Chain.{last_from, last_from-some, last_from-next}
use common_tools.Basic.LinkedHashMap.{
  LinkedHashMap, put, remove, move_to_head, remove_last, remove_end, unlink, push_front,
}
use common_tools.Basic.LinkedHashMap.Refine.{Holds}
use common_tools.Basic.LinkedHashMap.Move.{remove_refines, move_to_head_refines}
use common_tools.Basic.LinkedHashMap.Ends.{put_refines}
use common_tools.Basic.LinkedHashMap.Entries.{insert, delete, to_front}

module _ {K : Type 0} (same : K → K → Bool)
    (same_iff : (a b : K) → (same a b ≡ true) ↔ (a ≡ b)) where
  abbrev pub IsBucket : LinkedHashMap K Unit → Type 0
  IsBucket b = (es : List (K × Unit)) × Holds same same_iff b es

  abbrev pub In : K → LinkedHashMap K Unit → Type 0
  In k b = (i : ℕ) × (b.item_map k ≡ some i)

  -- `Put`, and `MoveToHead`
  abbrev pub to_bucket : K → LinkedHashMap K Unit → LinkedHashMap K Unit
  to_bucket k b = move_to_head same k (put same k tt b)

  self_same : (k : K) → same k k ≡ true
  self_same k = (same_iff k k).1 refl

  pub remove-IsBucket : (k : K) (b : LinkedHashMap K Unit) → IsBucket b → IsBucket (remove same k b)
  remove-IsBucket k b (es, h) = (delete same k es, remove_refines same same_iff k b es h)

  remove_item_map :
      (k j : K) (b : LinkedHashMap K Unit)
      → (remove same k b).item_map j ≡ (if same j k then none else b.item_map j)
  unfolding remove unlink
  remove_item_map k j b = elim (Bool-cases (same j k)) [
    | inl at ↦ elim (Option-cases (b.item_map k)) [
      | inl miss ↦
          let gone : b.item_map j ≡ none = ap (λ i. b.item_map i) ((same_iff j k).0 at) ∙ miss in
          rw (at, miss, remove) gone
      | inr (n, hit) ↦ rw (hit, remove) (rw at refl)
    ]
    | inr apart ↦ elim (Option-cases (b.item_map k)) [
      | inl miss ↦ rw (apart, miss, remove) refl
      | inr (n, hit) ↦ rw (hit, remove) (rw apart refl)
    ]
  ]

  -- Of a bucket that a key leaves, the other keys stay.
  pub stays :
      (k j : K) (b : LinkedHashMap K Unit) → same j k ≡ false → In j b → In j (remove same k b)
  stays k j b apart (i, at) = (i, ground (arith, remove_item_map k j b, apart, at))

  pub stayed :
      (k j : K) (b : LinkedHashMap K Unit) → In j (remove same k b) → (same j k ≡ false) × In j b
  stayed k j b (i, at) = elim (Bool-cases (same j k)) [
    | inl gone ↦ absurd (ground (arith, remove_item_map k j b, gone, at))
    | inr apart ↦ (apart, (i, ground (arith, remove_item_map k j b, apart, at)))
  ]

  pub to_bucket-IsBucket :
      (k : K) (b : LinkedHashMap K Unit) → IsBucket b → IsBucket (to_bucket k b)
  to_bucket-IsBucket k b (es, h) = (
    to_front same k (insert same k tt es),
    move_to_head_refines same same_iff k (put same k tt b) (insert same k tt es)
        (put_refines same same_iff k tt b es h),
  )

  move_item_map :
      (k j : K) (b : LinkedHashMap K Unit) → (move_to_head same k b).item_map j ≡ b.item_map j
  unfolding move_to_head unlink push_front
  move_item_map k j b = ground arith

  put_item_map :
      (k j : K) (b : LinkedHashMap K Unit)
      → same j k ≡ false
      → (put same k tt b).item_map j ≡ b.item_map j
  unfolding put
  put_item_map k j b apart = ground (arith, apart)

  pub arrives : (k : K) (b : LinkedHashMap K Unit) → In k (to_bucket k b)
  unfolding put
  arrives k b = elim (Option-cases (b.item_map k)) [
    | inl miss ↦ (b.fresh, ground (arith, move_item_map k k (put same k tt b), miss, self_same k))
    | inr (n, hit) ↦ (n, ground (arith, move_item_map k k (put same k tt b), hit))
  ]

  pub beside :
      (k j : K) (b : LinkedHashMap K Unit)
      → same j k ≡ false
      → b.item_map j ≡ (to_bucket k b).item_map j
  beside k j b apart = sym (move_item_map k j (put same k tt b) ∙ put_item_map k j b apart)

  -- An empty bucket holds no key; any other one holds one.
  pub empty-In : (k : K) (b : LinkedHashMap K Unit) → IsBucket b → b.len ≡ 0 → ¬ In k b
  empty-In k b (es, ([], w, e)) none_left (i, at) = absurd (ground (arith, (w.found k i at).0))
  empty-In k b (es, (x ∷ xs, w, e)) none_left (i, at) = absurd (ground (arith, w.count, none_left))

  pub some-In : (b : LinkedHashMap K Unit) → IsBucket b → b.len ≢ 0 → (k : K) × In k b
  some-In b (es, ([], w, e)) more = absurd (more w.count)
  some-In b (es, (x ∷ xs, w, e)) more = ((b.nodes x).key, (x, w.mapped x (ground arith)))

  -- A bucket that holds a key loses one by `RemoveLast`.
  pub remove_last-takes :
      (b : LinkedHashMap K Unit)
      → IsBucket b
      → (k : K) → In k b
      → (g : K) × In g b × (remove_last same b ≡ (remove same g b, some g))
  unfolding remove_last remove_end
  remove_last-takes b (es, ([], w, e)) k (i, at) = absurd (ground (arith, (w.found k i at).0))
  remove_last-takes b (es, (x ∷ xs, w, e)) k held = elim (Option-cases (last_from (some x) xs)) [
    | inl lost ↦ absurd (ground (arith, lost, last_from-some x xs))
    | inr (t, at) ↦
        let inside = (last_from-next (x ∷ xs) t w.linked.distinct at).0 in
        (
          (b.nodes t).key,
          (t, w.mapped t inside),
          ap (λ o. remove_end same o b) (w.linked.tail ∙ at),
        )
  ]
