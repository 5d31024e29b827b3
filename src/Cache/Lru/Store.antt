-- ===== src/Cache/Lru/Store.antt =====
-- Storing an entry puts it in front.
use common_tools.Prelude.{
  ℕ, ◌+◌, ◌≡◌, ◌↔◌, refl, sym, subst, ap, ◌∙◌, Bool, true, false, none, some, List, [], ◌∷◌, arith,
  Bool-cases, Option-cases, inl, inr,
}
use common_tools.Basic.Chain.{
  member, is_at, or_else, last_from-outside, last_from-next, first-outside, ends-filled,
}
use common_tools.Basic.LinkedHashMap.{Node, LinkedHashMap, store_node, set_next, set_prev, map_set}
use common_tools.Basic.LinkedHashMap
use common_tools.Basic.LinkedHashMap.Entries.{lookup, insert, delete, to_front}
use common_tools.Basic.LinkedHashMap.Refine.{IsMap, Holds}
use common_tools.Basic.LinkedHashMap.Ends.{put_refines}
use common_tools.Cache.Lru.{attach, touch, store}
use common_tools.Cache.Lru.Equal.{
  Equal, Equal-Holds, touch_refines, touch-key, touch-value, touch-fields,
}

module _ {K T : Type 0} (same : K → K → Bool)
    (same_iff : (a b : K) → (same a b ≡ true) ↔ (a ≡ b)) where
  front-insert :
      (k : K) (v : T) (es : List (K × T))
      → to_front same k (insert same k v es) ≡ (k, v) ∷ delete same k es
  front-insert k v es = rw (found es, rest es, to_front) refl
    where
      itself : same k k ≡ true
      itself = (same_iff k k).1 refl

      found : (es : List (K × T)) → lookup same k (insert same k v es) ≡ some v
      found [] = rw itself refl
      found ((j, w) ∷ es) = elim (Bool-cases (same j k)) [
        | inl e ↦ rw (e, e) refl
        | inr e ↦ rw (e, e) (found es)
      ]

      rest : (es : List (K × T)) → delete same k (insert same k v es) ≡ delete same k es
      rest [] = rw itself refl
      rest ((j, w) ∷ es) = elim (Bool-cases (same j k)) [
        | inl e ↦ rw (e, e) refl
        | inr e ↦ rw (e, e) (ap (λ r. (j, w) ∷ r) (rest es))
      ]

  module _ (k : K) (v : T) (m : LinkedHashMap K T) where
    abbrev changed : ℕ → LinkedHashMap K T
    changed n = record m { nodes = store_node n (record (m.nodes n) { value = v }) m.nodes }

    put-hit : (n : ℕ) → m.item_map k ≡ some n → LinkedHashMap.put same k v m ≡ changed n
    unfolding LinkedHashMap.put
    put-hit n hit = rw (hit, LinkedHashMap.put) refl

    store-hit :
        (n : ℕ)
        → m.item_map k ≡ some n
        → let t = touch n (changed n) in
          store same k v m ≡ record t { item_map = map_set same k (some n) t.item_map }
    unfolding store
    store-hit n hit = rw (hit, store) refl

    store-miss :
        m.item_map k ≡ none
        → let n = m.fresh in
          let node : Node K T = record { key = k; value = v; prev = none; next = none } in
          let t = touch n (record m { nodes = store_node n node m.nodes; fresh = n + 1 }) in
          store same k v m
          ≡ record t { item_map = map_set same k (some n) t.item_map; len = m.len + 1 }
    unfolding store
    store-miss miss = rw (miss, store) refl

    module _ (n : ℕ) (hit : m.item_map k ≡ some n) where
      abbrev touched : LinkedHashMap K T
      touched = touch n (changed n)

      -- Writing the node that the map has for the key changes nothing.
      rewritten : (j : K) → map_set same k (some n) touched.item_map j ≡ touched.item_map j
      rewritten j = elim (Bool-cases (same j k)) [
        | inl e ↦
            let names : k ≡ j = sym ((same_iff j k).0 e) in
            let was : touched.item_map j ≡ some n =
              ap (λ f. f j) (touch-fields same same_iff n (changed n)).1
              ∙ subst (λ x. m.item_map x ≡ some n) names hit in
            rw e (sym was)
        | inr e ↦ rw e refl
      ]

      rewritten-Equal :
          Equal touched (record touched { item_map = map_set same k (some n) touched.item_map })
      rewritten-Equal = record {
        key = λ i. refl;
        value = λ i. refl;
        prev = λ i. refl;
        next = λ i. refl;
        fresh = refl;
        item_map = rewritten;
        len = refl;
        head = refl;
        tail = refl;
      }

      stored-hit :
          (es : List (K × T))
          → Holds same same_iff m es
          → Holds same same_iff (store same k v m) ((k, v) ∷ delete same k es)
      stored-hit es h =
          let put_in = put_refines same same_iff k v m es h in
          let at_n =
            subst (λ r. Holds same same_iff r (insert same k v es)) (put-hit n hit) put_in in
          let front = touch_refines same same_iff k n (changed n) (insert same k v es) hit at_n in
          let done =
            Equal-Holds same same_iff touched
              (record touched { item_map = map_set same k (some n) touched.item_map })
              (to_front same k (insert same k v es)) rewritten-Equal front in
          subst (Holds same same_iff (store same k v m)) (front-insert k v es) (
            subst (λ r. Holds same same_iff r (to_front same k (insert same k v es)))
              (sym (store-hit n hit)) done)

    module _ (xs : List ℕ) (w : IsMap same same_iff m xs) (miss : m.item_map k ≡ none) where
      abbrev n : ℕ
      n = m.fresh

      -- The map with the entry put at the end.
      abbrev ended : LinkedHashMap K T
      ended = record {
        nodes =
            set_next m.tail (some n)
              (store_node n (record { key = k; value = v; prev = m.tail; next = none }) m.nodes);
        fresh = n + 1;
        item_map = map_set same k (some n) m.item_map;
        len = m.len + 1;
        head = or_else m.tail (some n) m.head;
        tail = some n;
      }

      put-miss : LinkedHashMap.put same k v m ≡ ended
      unfolding LinkedHashMap.put
      put-miss = rw (miss, LinkedHashMap.put) refl

      abbrev bare : LinkedHashMap K T
      bare = record m {
        nodes = store_node n (record { key = k; value = v; prev = none; next = none }) m.nodes;
        fresh = n + 1;
      }

      outside : member n xs ≡ false
      outside = elim (Bool-cases (member n xs)) [
        | inl h ↦ absurd (omega (arith, w.old n h))
        | inr h ↦ h
      ]

      not_tail : is_at m.tail n ≡ false
      not_tail = ground (arith, w.linked.tail, last_from-outside none n xs refl outside)

      not_head : is_at m.head n ≡ false
      not_head = ground (arith, w.linked.head, first-outside n xs outside)

      both_ends : or_else m.head true false ≡ or_else m.tail true false
      both_ends = ground (arith, w.linked.head, w.linked.tail, ends-filled xs)

      tail_last : (t : ℕ) → m.tail ≡ some t → (m.nodes t).next ≡ none
      tail_last t e =
          let (in_xs, at_end) = last_from-next xs t w.linked.distinct (sym w.linked.tail ∙ e) in
          w.linked.next t in_xs ∙ at_end

      bare-next : (i : ℕ) → ((touch n bare).nodes i).next ≡ ((touch n ended).nodes i).next
      unfolding touch attach
      bare-next i = elim (Option-cases m.tail) [
        | inl e ↦ ground (arith, e, not_tail, not_head, both_ends)
        | inr (t, e) ↦
            let at_end = tail_last t e in ground (arith, e, at_end, not_tail, not_head, both_ends)
      ]

      bare-prev : (i : ℕ) → ((touch n bare).nodes i).prev ≡ ((touch n ended).nodes i).prev
      unfolding touch attach
      bare-prev i = ground (arith, not_tail, not_head, both_ends)

      bare-head : (touch n bare).head ≡ (touch n ended).head
      unfolding touch attach
      bare-head = ground (arith, not_tail, not_head, both_ends)

      bare-tail : (touch n bare).tail ≡ (touch n ended).tail
      unfolding touch attach
      bare-tail = ground (arith, not_tail, not_head, both_ends)

      bare-entry :
          (i : ℕ)
          → ((ended.nodes i).key ≡ (bare.nodes i).key)
            × ((ended.nodes i).value ≡ (bare.nodes i).value)
      bare-entry i = (ground arith, ground arith)

      added : LinkedHashMap K T
      added =
          let t = touch n bare in
          record t { item_map = map_set same k (some n) t.item_map; len = m.len + 1 }

      added-Equal : Equal (touch n ended) added
      unfolding added
      added-Equal = record {
        key = λ i.
            touch-key same same_iff n i bare
            ∙ sym (bare-entry i).0
            ∙ sym (touch-key same same_iff n i ended);
        value = λ i.
            touch-value same same_iff n i bare
            ∙ sym (bare-entry i).1
            ∙ sym (touch-value same same_iff n i ended);
        prev = bare-prev;
        next = bare-next;
        fresh = (touch-fields same same_iff n bare).0 ∙ sym (touch-fields same same_iff n ended).0;
        item_map = λ j.
            ap (λ f. map_set same k (some n) f j) (touch-fields same same_iff n bare).1
            ∙ ap (λ f. f j) (sym (touch-fields same same_iff n ended).1);
        len = sym (touch-fields same same_iff n ended).2;
        head = bare-head;
        tail = bare-tail;
      }

      stored-miss :
          (es : List (K × T))
          → Holds same same_iff m es
          → Holds same same_iff (store same k v m) ((k, v) ∷ delete same k es)
      unfolding added
      stored-miss es h =
          let itself : same k k ≡ true = (same_iff k k).1 refl in
          let hit : ended.item_map k ≡ some n = rw itself refl in
          let at_end =
            subst (λ r. Holds same same_iff r (insert same k v es)) put-miss
              (put_refines same same_iff k v m es h) in
          let front = touch_refines same same_iff k n ended (insert same k v es) hit at_end in
          let done =
            Equal-Holds same same_iff (touch n ended) added (to_front same k (insert same k v es))
              added-Equal front in
          subst (Holds same same_iff (store same k v m)) (front-insert k v es) (
            subst (λ r. Holds same same_iff r (to_front same k (insert same k v es)))
              (sym (store-miss miss)) done)

    -- The entry is in front, and no other has its key.
    pub store_refines :
        (es : List (K × T))
        → Holds same same_iff m es
        → Holds same same_iff (store same k v m) ((k, v) ∷ delete same k es)
    store_refines es (xs, w, f) = elim (Option-cases (m.item_map k)) [
      | inl miss ↦ stored-miss xs w miss es (xs, w, f)
      | inr (n, hit) ↦ stored-hit n hit es (xs, w, f)
    ]
