-- ===== src/Cache/Lru/Equal.antt =====
-- Maps with equal fields hold the same entries.
use common_tools.Prelude.{
  ℕ, ◌≡◌, ◌↔◌, refl, sym, subst, ap, ◌∙◌, Bool, true, false, some, List, arith, if◌then◌else◌,
  Bool-cases, inl, inr,
}
use common_tools.Basic.Chain.{member, is_at}
use common_tools.Basic.LinkedHashMap.{
  LinkedHashMap, move_to_head, unlink, push_front, set_next, set_prev,
}
use common_tools.Basic.LinkedHashMap.Rep.{
  Linked, unlink-key, unlink-value, push_front-key, push_front-value,
}
use common_tools.Basic.LinkedHashMap.Entries.{entries-same, to_front}
use common_tools.Basic.LinkedHashMap.Refine.{IsMap, Holds}
use common_tools.Basic.LinkedHashMap.Move.{move_to_head_refines}
use common_tools.Cache.Lru.{attach, touch}
use common_tools.Cache.Lru.Touch.{touch-next, touch-prev, touch-head, touch-tail}

module _ {K T : Type 0} where
  -- The maps have equal fields.
  pub record Equal (m r : LinkedHashMap K T) : Type 0 where
    pub key : (i : ℕ) → (r.nodes i).key ≡ (m.nodes i).key
    pub value : (i : ℕ) → (r.nodes i).value ≡ (m.nodes i).value
    pub prev : (i : ℕ) → (r.nodes i).prev ≡ (m.nodes i).prev
    pub next : (i : ℕ) → (r.nodes i).next ≡ (m.nodes i).next
    pub fresh : r.fresh ≡ m.fresh
    pub item_map : (k : K) → r.item_map k ≡ m.item_map k
    pub len : r.len ≡ m.len
    pub head : r.head ≡ m.head
    pub tail : r.tail ≡ m.tail

  Equal-Linked : (m r : LinkedHashMap K T) (xs : List ℕ) → Equal m r → Linked m xs → Linked r xs
  Equal-Linked m r xs e l = record {
    distinct = l.distinct;
    head = e.head ∙ l.head;
    tail = e.tail ∙ l.tail;
    prev = λ i h. e.prev i ∙ l.prev i h;
    next = λ i h. e.next i ∙ l.next i h;
  }

  module _ (same : K → K → Bool) (same_iff : (a b : K) → (same a b ≡ true) ↔ (a ≡ b)) where
    Equal-IsMap :
        (m r : LinkedHashMap K T) (xs : List ℕ)
        → Equal m r
        → IsMap same same_iff m xs
        → IsMap same same_iff r xs
    Equal-IsMap m r xs e w = record {
      linked = Equal-Linked m r xs e w.linked;
      count = e.len ∙ w.count;
      old = λ i h. omega (arith, w.old i h, e.fresh);
      found = λ k i f. let g = w.found k i (sym (e.item_map k) ∙ f) in (g.0, e.key i ∙ g.1);
      mapped = λ i h. ap r.item_map (e.key i) ∙ e.item_map (m.nodes i).key ∙ w.mapped i h;
    }

    pub Equal-Holds :
        (m r : LinkedHashMap K T) (es : List (K × T))
        → Equal m r
        → Holds same same_iff m es
        → Holds same same_iff r es
    Equal-Holds m r es e (xs, w, f) = (
      xs,
      Equal-IsMap m r xs e w,
      entries-same r.nodes m.nodes xs (λ i h. let a = e.key i in let b = e.value i in cc) ∙ f,
    )

    pub touch-key : (n i : ℕ) (m : LinkedHashMap K T) → ((touch n m).nodes i).key ≡ (m.nodes i).key
    unfolding touch attach
    touch-key n i m = ground arith

    pub touch-value :
        (n i : ℕ) (m : LinkedHashMap K T) → ((touch n m).nodes i).value ≡ (m.nodes i).value
    unfolding touch attach
    touch-value n i m = ground arith

    pub touch-fields :
        (n : ℕ) (m : LinkedHashMap K T)
        → ((touch n m).fresh ≡ m.fresh)
          × ((touch n m).item_map ≡ m.item_map)
          × ((touch n m).len ≡ m.len)
    unfolding touch attach
    touch-fields n m = ground arith

    touch-Equal :
        (n : ℕ) (m : LinkedHashMap K T) (xs : List ℕ)
        → Linked m xs
        → member n xs ≡ true
        → is_at m.head n ≡ false
        → Equal (push_front n (unlink n m)) (touch n m)
    unfolding push_front unlink
    touch-Equal n m xs l h behind = record {
      key = λ i. touch-key n i m ∙ sym (push_front-key n i (unlink n m) ∙ unlink-key n i m);
      value = λ i. touch-value n i m ∙ sym (push_front-value n i (unlink n m) ∙ unlink-value n i m);
      prev = touch-prev n m xs l h behind;
      next = touch-next n m xs l h behind;
      fresh = (touch-fields n m).0;
      item_map = λ k. ap (λ f. f k) (touch-fields n m).1;
      len = (touch-fields n m).2;
      head = touch-head n m xs l h behind;
      tail = touch-tail n m xs l h behind;
    }

    move_to_head-hit :
        (k : K) (n : ℕ) (m : LinkedHashMap K T)
        → m.item_map k ≡ some n
        → move_to_head same k m ≡ (if is_at m.head n then m else push_front n (unlink n m))
    unfolding move_to_head
    move_to_head-hit k n m hit = rw (hit, move_to_head) refl

    touch-front : (n : ℕ) (m : LinkedHashMap K T) → is_at m.head n ≡ true → touch n m ≡ m
    unfolding touch
    touch-front n m front =
        ap
          (λ b.
            if b
            then m
            else attach m.head n (record m {
              nodes =
                  set_prev (set_next (m.nodes n).prev (m.nodes n).next m.nodes n).next
                    (set_next (m.nodes n).prev (m.nodes n).next m.nodes n).prev
                    (set_next (m.nodes n).prev (m.nodes n).next m.nodes);
              tail =
                  if is_at m.tail n
                  then (set_prev (set_next (m.nodes n).prev (m.nodes n).next m.nodes n).next
                      (set_next (m.nodes n).prev (m.nodes n).next m.nodes n).prev
                      (set_next (m.nodes n).prev (m.nodes n).next m.nodes) n).prev
                  else m.tail;
            }))
          front

    -- The node of a key that the map holds moves to the front.
    pub touch_refines :
        (k : K) (n : ℕ) (m : LinkedHashMap K T) (es : List (K × T))
        → m.item_map k ≡ some n
        → Holds same same_iff m es
        → Holds same same_iff (touch n m) (to_front same k es)
    touch_refines k n m es hit (xs, w, f) =
        let done = move_to_head_refines same same_iff k m es (xs, w, f) in
        let step = move_to_head-hit k n m hit in
        elim (Bool-cases (is_at m.head n)) [
          | inl front ↦
              let same_map : move_to_head same k m ≡ touch n m =
                step
                ∙ ap (λ b. if b then m else push_front n (unlink n m)) front
                ∙ sym (touch-front n m front) in
              subst (λ r. Holds same same_iff r (to_front same k es)) same_map done
          | inr behind ↦
              let moved : move_to_head same k m ≡ push_front n (unlink n m) =
                step ∙ ap (λ b. if b then m else push_front n (unlink n m)) behind in
              Equal-Holds (push_front n (unlink n m)) (touch n m) (to_front same k es)
                (touch-Equal n m xs w.linked (w.found k n hit).0 behind)
                (subst (λ r. Holds same same_iff r (to_front same k es)) moved done)
        ]
