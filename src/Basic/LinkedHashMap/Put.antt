-- ===== src/Basic/LinkedHashMap/Put.antt =====
-- `Put` refines the insertion into the ordered list.
use common_tools.Prelude.{
  ℕ, ◌<◌, ◌≡◌, ◌↔◌, refl, sym, subst, ap, ◌∙◌, Bool, true, false, none, some, List, [], ◌∷◌, ◌++◌,
  length, arith, ◌==◌, if◌then◌else◌, Bool-cases, inl, inr, length-append,
}
use common_tools.Basic.Chain.{
  member, member-append, append-Distinct, succ_of-append, pred_from-append, last_from-append,
  last_from-outside, succ_of-end, first-append,
}
use common_tools.Basic.LinkedHashMap.{LinkedHashMap, put, store_node}
use common_tools.Basic.LinkedHashMap.Rep.{Linked}
use common_tools.Basic.LinkedHashMap.Entries.{
  insert, entry, entries, entries-same, insert-Absent, insert-Only, entries-append,
}
use common_tools.Basic.LinkedHashMap.Refine.{IsMap, missing-Absent, found-Only}

module _ {K T : Type 0} (same : K → K → Bool) (same_iff : (a b : K) → (same a b ≡ true) ↔ (a ≡ b))
    (k : K) (v : T) (m : LinkedHashMap K T) (xs : List ℕ) (w : IsMap same same_iff m xs) where
  module _ (miss : m.item_map k ≡ none) where
    abbrev n : ℕ
    n = m.fresh

    new_member : member n xs ≡ false
    new_member = elim (Bool-cases (member n xs)) [
      | inl h ↦ absurd (omega (arith, w.old n h))
      | inr h ↦ h
    ]

    added-Linked : Linked (put same k v m) (xs ++ n ∷ [])
    unfolding put
    added-Linked =
        rw (miss, put)
          record {
            distinct = append-Distinct n xs w.linked.distinct new_member;
            head = ground (arith, w.linked.head, w.linked.tail, first-append n xs);
            tail = sym (last_from-append none n xs);
            prev = λ i h. ground (
              arith,
              h,
              w.linked.prev i,
              w.linked.tail,
              member-append n i xs,
              pred_from-append none n i xs new_member,
            );
            next = λ i h. ground (
              arith,
              h,
              w.linked.next i,
              w.linked.tail,
              member-append n i xs,
              new_member,
              last_from-outside none n xs refl new_member,
              succ_of-end n xs new_member,
              succ_of-append none n i xs w.linked.distinct refl,
            );
          }

    -- The old nodes keep their entries, and the new one has the new entry.
    added-entry :
        (i : ℕ) → entry ((put same k v m).nodes i) ≡ (if i == n then (k, v) else entry (m.nodes i))
    unfolding put
    added-entry i = rw (miss, put) (ground arith)

    added_old : (i : ℕ) → member i xs ≡ true → entry ((put same k v m).nodes i) ≡ entry (m.nodes i)
    added_old i h = let e = added-entry i in let lo = w.old i h in ground (arith, e, lo)

    added_map : (j : K) → (put same k v m).item_map j ≡ (if same j k then some n else m.item_map j)
    unfolding put
    added_map j = rw (miss, put) refl

    new_key : ((put same k v m).nodes n).key ≡ k
    new_key =
        let e = added-entry n in
        let at : entry ((put same k v m).nodes n) ≡ (k, v) = ground (arith, e) in
        ap (λ (x : K × T). x.0) at

    old_key : (i : ℕ) → member i xs ≡ true → ((put same k v m).nodes i).key ≡ (m.nodes i).key
    old_key i h = ap (λ (x : K × T). x.0) (added_old i h)

    added_found :
        (j : K) (i : ℕ)
        → (put same k v m).item_map j ≡ some i
        → (member i (xs ++ n ∷ []) ≡ true) × (((put same k v m).nodes i).key ≡ j)
    added_found j i e = elim (Bool-cases (same j k)) [
      | inl s ↦
          let both : some n ≡ some i = ground (arith, e, s, added_map j) in
          let at : n ≡ i = ground (arith, both) in
          let names : k ≡ j = sym ((same_iff j k).0 s) in
          (
            ground (arith, at, member-append n i xs),
            subst (λ x. ((put same k v m).nodes x).key ≡ j) at (new_key ∙ names),
          )
      | inr s ↦
          let was : m.item_map j ≡ some i = ground (arith, e, s, added_map j) in
          let (h, key_at) = w.found j i was in
          (ground (arith, h, member-append n i xs), old_key i h ∙ key_at)
    ]

    added_mapped :
        (i : ℕ)
        → member i (xs ++ n ∷ []) ≡ true
        → (put same k v m).item_map ((put same k v m).nodes i).key ≡ some i
    added_mapped i h = elim (Bool-cases (member i xs)) [
      | inl old ↦
          let other = missing-Absent same same_iff k m xs w miss i old in
          subst (λ j. (put same k v m).item_map j ≡ some i) (sym (old_key i old))
            (added_map (m.nodes i).key ∙ rw other (w.mapped i old))
      | inr new ↦
          let at : n ≡ i = ground (arith, h, new, member-append n i xs) in
          let itself : same k k ≡ true = (same_iff k k).1 refl in
          subst (λ x. (put same k v m).item_map ((put same k v m).nodes x).key ≡ some x) at
            (ap (put same k v m).item_map new_key ∙ added_map k ∙ rw itself refl)
    ]

    added_old_fresh : (i : ℕ) → member i (xs ++ n ∷ []) ≡ true → i < (put same k v m).fresh
    unfolding put
    added_old_fresh i h = rw (miss, put) (ground (arith, h, w.old i, member-append n i xs))

    added_count : (put same k v m).len ≡ length (xs ++ n ∷ [])
    unfolding put
    added_count = rw (miss, put) (omega (arith, w.count, length-append xs (n ∷ [])))

    pub added-IsMap : IsMap same same_iff (put same k v m) (xs ++ n ∷ [])
    added-IsMap = record {
      linked = added-Linked;
      count = added_count;
      old = added_old_fresh;
      found = added_found;
      mapped = added_mapped;
    }

    pub added-entries :
        entries (put same k v m).nodes (xs ++ n ∷ []) ≡ insert same k v (entries m.nodes xs)
    added-entries =
        let nodes = (put same k v m).nodes in
        let front = entries-same nodes m.nodes xs added_old in
        let new = added-entry n in
        let last : entry (nodes n) ≡ (k, v) = ground (arith, new) in
        let split = entries-append nodes n xs in
        let inserted =
          insert-Absent same k m.nodes v xs (missing-Absent same same_iff k m xs w miss) in
        cc

  module _ (n : ℕ) (hit : m.item_map k ≡ some n) where
    key_kept :
        (i : ℕ) → (store_node n (record (m.nodes n) { value = v }) m.nodes i).key ≡ (m.nodes i).key
    key_kept i = ground arith

    pub changed-IsMap : IsMap same same_iff (put same k v m) xs
    unfolding put
    changed-IsMap =
        rw (hit, put)
          record {
            linked = record {
              distinct = w.linked.distinct;
              head = w.linked.head;
              tail = w.linked.tail;
              prev = λ i h. ground (arith, w.linked.prev i);
              next = λ i h. ground (arith, w.linked.next i);
            };
            count = w.count;
            old = w.old;
            found = λ j i e. ((w.found j i e).0, key_kept i ∙ (w.found j i e).1);
            mapped = λ i h. subst (λ j. m.item_map j ≡ some i) (sym (key_kept i)) (w.mapped i h);
          }

    pub changed-entries : entries (put same k v m).nodes xs ≡ insert same k v (entries m.nodes xs)
    unfolding put
    changed-entries =
        rw (hit, put)
          (sym (
            insert-Only same k m.nodes n v xs w.linked.distinct (w.found k n hit).0
              (found-Only same same_iff k m xs w n hit)))
