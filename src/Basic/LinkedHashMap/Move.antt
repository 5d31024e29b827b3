-- ===== src/Basic/LinkedHashMap/Move.antt =====
-- `Remove` and `MoveToHead` refine the operations on the ordered list.
use common_tools.Prelude.{
  ℕ, ◌-◌, ◌≡◌, ◌≢◌, ◌↔◌, refl, sym, subst, ap, ◌∙◌, Bool, true, none, some, List, ◌∷◌, arith,
  Bool-cases, Option-cases, inl, inr,
}
use common_tools.Basic.Chain.{member, erase, is_at, first, member-erase, length-erase}
use common_tools.Basic.LinkedHashMap.{
  LinkedHashMap, map_set, remove, move_to_head, unlink, push_front,
}
use common_tools.Basic.LinkedHashMap.Rep.{
  unlink-Linked, unlink-key, unlink-value, push_front-Linked, Linked-of_same, push_front-key,
  push_front-value,
}
use common_tools.Basic.LinkedHashMap.Entries.{
  delete, to_front, entry, entries, entries-same, lookup-Absent, lookup-Only, delete-Only,
  delete-Absent, entries-front,
}
use common_tools.Basic.LinkedHashMap.Refine.{IsMap, Holds, missing-Absent, found-Only}

entry-unlink :
    {K T : Type 0} (n i : ℕ) (m : LinkedHashMap K T)
    → entry ((unlink n m).nodes i) ≡ entry (m.nodes i)
entry-unlink n i m = let a = unlink-key n i m in let b = unlink-value n i m in cc

entry-push_front :
    {K T : Type 0} (n i : ℕ) (m : LinkedHashMap K T)
    → entry ((push_front n m).nodes i) ≡ entry (m.nodes i)
entry-push_front n i m = let a = push_front-key n i m in let b = push_front-value n i m in cc

module _ {K T : Type 0} (same : K → K → Bool)
    (same_iff : (a b : K) → (same a b ≡ true) ↔ (a ≡ b)) where
  module _ (k : K) (m : LinkedHashMap K T) (xs : List ℕ) (w : IsMap same same_iff m xs) (n : ℕ)
      (hit : m.item_map k ≡ some n) where
    abbrev removed : LinkedHashMap K T
    removed =
        let u = unlink n m in
        record u { item_map = map_set same k none u.item_map; len = u.len - 1 }

    there : member n xs ≡ true
    there = (w.found k n hit).0

    -- Which nodes stay.
    stays : (i : ℕ) → member i (erase n xs) ≡ true → (member i xs ≡ true) × (i ≢ n)
    stays i h =
        let e = member-erase n i xs w.linked.distinct in
        (ground (arith, e, h), ground (arith, e, h))

    removed-found :
        (j : K) (i : ℕ)
        → removed.item_map j ≡ some i
        → (member i (erase n xs) ≡ true) × ((removed.nodes i).key ≡ j)
    unfolding unlink
    removed-found j i e = elim (Bool-cases (same j k)) [
      | inl s ↦ absurd (ground (arith, e, s))
      | inr s ↦
          let at : m.item_map j ≡ some i = ground (arith, e, s) in
          let (h, key_at) = w.found j i at in
          let other : i ≢ n = λ p.
            let hit_i : m.item_map k ≡ some i = subst (λ x. m.item_map k ≡ some x) (sym p) hit in
            let key_k = (w.found k i hit_i).1 in
            let both : same j k ≡ true = (same_iff j k).1 (sym key_at ∙ key_k) in
            absurd (ground (arith, both, s)) in
          (
            ground (arith, h, other, member-erase n i xs w.linked.distinct),
            unlink-key n i m ∙ key_at,
          )
    ]

    removed-mapped :
        (i : ℕ) → member i (erase n xs) ≡ true → removed.item_map (removed.nodes i).key ≡ some i
    unfolding unlink
    removed-mapped i h =
        let (in_xs, ne) = stays i h in
        let other = (found-Only same same_iff k m xs w n hit).1 i in_xs ne in
        let at = w.mapped i in_xs in
        subst (λ j. removed.item_map j ≡ some i) (sym (unlink-key n i m)) (rw other at)

    removed-IsMap : IsMap same same_iff removed (erase n xs)
    unfolding unlink
    removed-IsMap = record {
      linked =
          Linked-of_same (unlink n m) (erase n xs) m.fresh removed.item_map removed.len
            (unlink-Linked n m xs w.linked there);
      count = omega (arith, w.count, length-erase n xs there);
      old = λ i h. w.old i (stays i h).0;
      found = removed-found;
      mapped = removed-mapped;
    }

    removed-entries : entries removed.nodes (erase n xs) ≡ delete same k (entries m.nodes xs)
    removed-entries =
        entries-same removed.nodes m.nodes (erase n xs) (λ i h. entry-unlink n i m)
        ∙ sym (delete-Only same k m.nodes n xs there (found-Only same same_iff k m xs w n hit))

  -- `Remove` deletes the entry of the key, if there is one.
  pub remove_refines :
      (k : K) (m : LinkedHashMap K T) (es : List (K × T))
      → Holds same same_iff m es
      → Holds same same_iff (remove same k m) (delete same k es)
  unfolding remove
  remove_refines k m es (xs, w, e) = elim (Option-cases (m.item_map k)) [
    | inl miss ↦
        rw (miss, remove)
          (let nothing =
              delete-Absent same k m.nodes xs (missing-Absent same same_iff k m xs w miss) in
            (xs, w, sym nothing ∙ ap (delete same k) e))
    | inr (n, hit) ↦
        rw (hit, remove)
          (
            erase n xs,
            removed-IsMap k m xs w n hit,
            removed-entries k m xs w n hit ∙ ap (delete same k) e,
          )
  ]

  module _ (k : K) (m : LinkedHashMap K T) (xs : List ℕ) (w : IsMap same same_iff m xs) (n : ℕ)
      (in_xs : member n xs ≡ true) where
    abbrev moved : LinkedHashMap K T
    moved = push_front n (unlink n m)

    moved_entry : (i : ℕ) → entry (moved.nodes i) ≡ entry (m.nodes i)
    moved_entry i = entry-push_front n i (unlink n m) ∙ entry-unlink n i m

    moved_key : (i : ℕ) → (moved.nodes i).key ≡ (m.nodes i).key
    moved_key i = push_front-key n i (unlink n m) ∙ unlink-key n i m

    -- The nodes are the same in the new order.
    same_nodes : (i : ℕ) → member i (n ∷ erase n xs) ≡ member i xs
    same_nodes i = ground (arith, member-erase n i xs w.linked.distinct, in_xs)

    moved-IsMap : IsMap same same_iff moved (n ∷ erase n xs)
    unfolding unlink push_front
    moved-IsMap = record {
      linked =
          push_front-Linked n (unlink n m) (erase n xs) (unlink-Linked n m xs w.linked in_xs)
            (ground (arith, member-erase n n xs w.linked.distinct));
      count = omega (arith, w.count, length-erase n xs in_xs);
      old = λ i h. w.old i (sym (same_nodes i) ∙ h);
      found = λ j i e. (same_nodes i ∙ (w.found j i e).0, moved_key i ∙ (w.found j i e).1);
      mapped = λ i h.
          subst (λ j. m.item_map j ≡ some i) (sym (moved_key i))
            (w.mapped i (sym (same_nodes i) ∙ h));
    }

    moved-entries :
        entries moved.nodes (n ∷ erase n xs) ≡ entry (m.nodes n) ∷ entries m.nodes (erase n xs)
    moved-entries = entries-same moved.nodes m.nodes (n ∷ erase n xs) (λ i h. moved_entry i)

  -- `MoveToHead` puts the entry of the key in front of the others, if there is one.
  pub move_to_head_refines :
      (k : K) (m : LinkedHashMap K T) (es : List (K × T))
      → Holds same same_iff m es
      → Holds same same_iff (move_to_head same k m) (to_front same k es)
  unfolding move_to_head
  move_to_head_refines k m es (xs, w, e) =
      subst (λ es. Holds same same_iff (move_to_head same k m) (to_front same k es)) e
        (elim (Option-cases (m.item_map k)) [
          | inl miss ↦
              let nothing =
                lookup-Absent same k m.nodes xs (missing-Absent same same_iff k m xs w miss) in
              rw (miss, nothing, to_front, move_to_head) (xs, w, refl)
          | inr (n, hit) ↦
              let there = (w.found k n hit).0 in
              let only = found-Only same same_iff k m xs w n hit in
              let some_value = lookup-Only same k m.nodes n xs there only in
              let deleted = delete-Only same k m.nodes n xs there only in
              let key_k = (w.found k n hit).1 in
              let named : entry (m.nodes n) ≡ (k, (m.nodes n).value) = cc in
              let tail : (k, (m.nodes n).value) ∷ delete same k (entries m.nodes xs)
                  ≡ entry (m.nodes n) ∷ entries m.nodes (erase n xs) =
                cc in
              rw (some_value, hit, to_front, move_to_head)
                (elim (Bool-cases (is_at m.head n)) [
                  | inl front ↦
                      let at : is_at (first xs) n ≡ true =
                        subst (λ h. is_at h n ≡ true) w.linked.head front in
                      rw front (xs, w, entries-front m.nodes n xs at ∙ sym tail)
                  | inr behind ↦ rw behind (
                    n ∷ erase n xs,
                    moved-IsMap k m xs w n there,
                    moved-entries k m xs w n there ∙ sym tail,
                  )
                ])
        ])
