-- ===== src/Cache/Lru/Evict.antt =====
-- The last entry is removed.
use common_tools.Prelude.{
  ℕ, ◌-◌, ◌<◌, ◌≡◌, ◌≢◌, ◌↔◌, refl, sym, subst, ap, ◌∙◌, Bool, true, false, none, some, List, [],
  ◌∷◌, length, arith, ◌==◌, if◌then◌else◌, Option-cases, inl, inr,
}
use common_tools.Prelude.Run.{ok, Returns}
use common_tools.Basic.Chain.{
  member, last_from, pred_from, last_from-next, last_from-some, last_from-pred, pred_from-itself,
}
use common_tools.Basic.LinkedHashMap.{LinkedHashMap, set_next, map_set, unlink, remove}
use common_tools.Basic.LinkedHashMap.Entries.{delete, entries}
use common_tools.Basic.LinkedHashMap.Refine.{IsMap, Holds}
use common_tools.Basic.LinkedHashMap.Move.{remove_refines}
use common_tools.Basic.LinkedHashMap.Ends.{last_key, without, last_key-entries, size_lem}
use common_tools.Cache.Lru.{forget, cut_before, cut_tail, remove_tail}
use common_tools.Cache.Lru.Equal.{Equal, Equal-Holds}

module _ {K T : Type 0} (same : K → K → Bool)
    (same_iff : (a b : K) → (same a b ≡ true) ↔ (a ≡ b)) where
  module _ (m : LinkedHashMap K T) (t : ℕ) where
    abbrev key : K
    key = (m.nodes t).key

    abbrev without_tail : LinkedHashMap K T
    without_tail =
        let u = unlink t m in
        record u { item_map = map_set same key none u.item_map; len = u.len - 1 }

    remove-tail : m.item_map key ≡ some t → remove same key m ≡ without_tail
    unfolding remove
    remove-tail at = rw (at, remove) refl

    -- The only node, whose links are nil.
    alone : LinkedHashMap K T
    alone = record m {
      head = none;
      tail = none;
      item_map = map_set same key none m.item_map;
      len = m.len - 1;
    }

    alone-Equal : (m.nodes t).prev ≡ none → (m.nodes t).next ≡ none → Equal without_tail alone
    unfolding alone unlink
    alone-Equal p n = record {
      key = λ i. ground (arith, p, n);
      value = λ i. ground (arith, p, n);
      prev = λ i. ground (arith, p, n);
      next = λ i. ground (arith, p, n);
      fresh = refl;
      item_map = λ k. refl;
      len = refl;
      head = ground (arith, p, n);
      tail = ground (arith, p, n);
    }

    -- The node before it becomes the last.
    shorter : ℕ → LinkedHashMap K T
    shorter p = record m {
      nodes = set_next (some p) none m.nodes;
      tail = some p;
      item_map = map_set same key none m.item_map;
      len = m.len - 1;
    }

    shorter-Equal :
        (p : ℕ)
        → (m.nodes t).prev ≡ some p
        → (m.nodes t).next ≡ none
        → p ≢ t
        → Equal without_tail (shorter p)
    unfolding shorter unlink
    shorter-Equal p e n ne = record {
      key = λ i. ground (arith, e, n, ne);
      value = λ i. ground (arith, e, n, ne);
      prev = λ i. ground (arith, e, n, ne);
      next = λ i. ground (arith, e, n, ne);
      fresh = refl;
      item_map = λ k. refl;
      len = refl;
      head = ground (arith, e, n, ne);
      tail = ground (arith, e, n, ne);
    }

  abbrev Left : LinkedHashMap K T → List ℕ → LinkedHashMap K T → Type 0
  Left m xs r =
      let es = entries m.nodes xs in
      Holds same same_iff r (without same same_iff (last_key same same_iff es) es)

  module _ (m : LinkedHashMap K T) (t : ℕ) where
    -- What is left behind the last node.
    tail-Left :
        (xs : List ℕ) (r : LinkedHashMap K T)
        → IsMap same same_iff m xs
        → member t xs ≡ true
        → last_key same same_iff (entries m.nodes xs) ≡ some (key m t)
        → Equal (without_tail m t) r
        → Left m xs r
    tail-Left xs r w h last eq =
        let es = entries m.nodes xs in
        let gone = remove_refines same same_iff (key m t) m es (xs, w, refl) in
        let cut =
          subst (λ q. Holds same same_iff q (delete same (key m t) es))
            (remove-tail m t (w.mapped t h)) gone in
        let done =
          Equal-Holds same same_iff (without_tail m t) r (delete same (key m t) es) eq cut in
        subst (λ k. Holds same same_iff r (without same same_iff k es)) (sym last) done

    cut_tail-alone : m.tail ≡ some t → m.len ≡ 1 → remove_tail same m ≡ ok (alone m t)
    unfolding remove_tail cut_tail alone
    cut_tail-alone e one =
        let test : (m.len == 1) ≡ true = ground (arith, one) in
        ap (λ o. cut_tail same o m) e
        ∙ ap
            (λ b.
              if b
              then ok (forget same t m (record m { head = none; tail = none }))
              else cut_before same (m.nodes t).prev t m)
            test

    cut_tail-shorter :
        (p : ℕ)
        → m.tail ≡ some t
        → m.len ≢ 1
        → (m.nodes t).prev ≡ some p
        → remove_tail same m ≡ ok (shorter m t p)
    unfolding remove_tail cut_tail cut_before shorter
    cut_tail-shorter p e more before =
        let test : (m.len == 1) ≡ false = ground (arith, more) in
        ap (λ o. cut_tail same o m) e
        ∙ ap
            (λ b.
              if b
              then ok (forget same t m (record m { head = none; tail = none }))
              else cut_before same (m.nodes t).prev t m)
            test
        ∙ ap (λ o. cut_before same o t m) before

  remove_tail-Left :
      (m : LinkedHashMap K T) (xs : List ℕ)
      → 0 < length xs
      → IsMap same same_iff m xs
      → Returns (Left m xs) (remove_tail same m)
  remove_tail-Left m [] pos w = absurd (omega arith)
  remove_tail-Left m (x ∷ []) pos w =
      let p = w.linked.prev x (ground arith) in
      let n = w.linked.next x (ground arith) in
      let no_prev : (m.nodes x).prev ≡ none = ground (arith, p) in
      let no_next : (m.nodes x).next ≡ none = ground (arith, n) in
      (
        alone m x,
        cut_tail-alone m x w.linked.tail w.count,
        tail-Left m x (x ∷ []) (alone m x) w (ground arith) refl (alone-Equal m x no_prev no_next),
      )
  remove_tail-Left m (x ∷ y ∷ ys) pos w = elim (Option-cases (last_from (some y) ys)) [
    | inl lost ↦ absurd (ground (arith, lost, last_from-some y ys))
    | inr (t, at) ↦
        let xs = x ∷ y ∷ ys in
        let (in_xs, at_end) = last_from-next xs t w.linked.distinct at in
        let named = last_key-entries same same_iff m.nodes x (y ∷ ys) t at in
        let no_next = w.linked.next t in_xs ∙ at_end in
        let prev = w.linked.prev t in_xs in
        elim (Option-cases (pred_from none t xs)) [
          | inl first_one ↦
              absurd (ground (arith, first_one, last_from-pred x y ys t w.linked.distinct at))
          | inr (p, before) ↦
              let apart = pred_from-itself none t xs w.linked.distinct refl in
              let other : p ≢ t = ground (arith, apart, before) in
              (
                shorter m t p,
                cut_tail-shorter m t p (w.linked.tail ∙ at) (omega (arith, w.count))
                    (prev ∙ before),
                tail-Left m t xs (shorter m t p) w in_xs named
                    (shorter-Equal m t p (prev ∙ before) no_next other),
              )
        ]
  ]

  pub remove_tail_refines :
      (m : LinkedHashMap K T) (es : List (K × T))
      → 0 < length es
      → Holds same same_iff m es
      → Returns
          (λ r. Holds same same_iff r (without same same_iff (last_key same same_iff es) es))
          (remove_tail same m)
  remove_tail_refines m es pos (xs, w, f) =
      let size = size_lem same same_iff m es (xs, w, f) in
      subst
        (λ es.
          Returns
            (λ r. Holds same same_iff r (without same same_iff (last_key same same_iff es) es))
            (remove_tail same m))
        f (remove_tail-Left m xs (omega (arith, pos, size, w.count)) w)
