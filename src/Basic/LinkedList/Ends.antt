-- ===== src/Basic/LinkedList/Ends.antt =====
-- Adding at both ends, removing at the front and `Contains` act on the list of the items.
use common_tools.Prelude.{
  ℕ, zero, suc, ◌<◌, ◌≡◌, refl, sym, subst, ap, ◌∙◌, Bool, true, false, Option, none, some, List,
  [], ◌∷◌, ◌++◌, arith, ◌==◌, if◌then◌else◌, Bool-cases, inl, inr, length,
}
use common_tools.Prelude.Int.{pos, negsuc}
use common_tools.Prelude.Run.{Returns, returns, Returns-bind, Returns-weaken, Run, ok, ◌>>=◌}
use common_tools.Basic.Chain.{member, Distinct, first, succ_of}
use common_tools.Basic.LinkedList.{
  ListNode, LinkedList, add_first, add_last, remove_first, index_of, is_found, contains_item, Use,
  in_front, at_end, take_first, use_all, new_linked_list,
}
use common_tools.Basic.LinkedList.Chained.{
  Chained, HoldsItems, items_of, front-Chained, front_items, end-Chained, end_items,
}

module _ {T : Type 0} where
  pub add_first-HoldsItems :
      (t : T) (l : LinkedList T) (ts : List T)
      → HoldsItems l ts
      → HoldsItems (add_first t l) (t ∷ ts)
  add_first-HoldsItems t l ts (xs, w, e) =
      (l.fresh ∷ xs, front-Chained t l xs w, front_items t l xs w ∙ ap (λ us. t ∷ us) e)

  pub add_last-HoldsItems :
      (t : T) (l : LinkedList T) (ts : List T)
      → HoldsItems l ts
      → HoldsItems (add_last t l) (ts ++ t ∷ [])
  add_last-HoldsItems t l ts (xs, w, e) =
      (xs ++ l.fresh ∷ [], end-Chained t l xs w, end_items t l xs w ∙ ap (λ us. us ++ t ∷ []) e)

  -- What `RemoveFirst` leaves and gives.
  abbrev pub taken : List T → List T × Option T
  taken [] = ([], none)
  taken (t ∷ ts) = (ts, some t)

  remove_first-Chained :
      (l : LinkedList T) (xs : List ℕ)
      → Chained l xs
      → Returns
          (λ r.
            HoldsItems r.0 (taken (items_of l.nodes xs)).0
            × (r.1 ≡ (taken (items_of l.nodes xs)).1))
          (remove_first l)
  unfolding remove_first
  remove_first-Chained l [] w =
      let empty : (l.size == 0) ≡ true = ground (arith, w.size) in
      rw (empty, remove_first) (returns _ (([], w, refl), refl))
  remove_first-Chained l (x ∷ []) w =
      let some_left : (l.size == 0) ≡ false = ground (arith, w.size) in
      let no_next : (l.nodes x).next ≡ none = ground (arith, w.next x) in
      rw (some_left, w.first_node, no_next, remove_first)
        (returns _ (
          (
            [],
            record {
              distinct = tt;
              old = λ i h. absurd cc;
              size = ground (arith, w.size);
              first_node = refl;
              last_node = refl;
              next = λ i h. absurd cc;
            },
            refl,
          ),
          refl,
        ))
  remove_first-Chained l (x ∷ y ∷ ys) w =
      let some_left : (l.size == 0) ≡ false = ground (arith, w.size) in
      let next : (l.nodes x).next ≡ some y = ground (arith, w.next x) in
      rw (some_left, w.first_node, next, remove_first)
        (returns _ (
          (
            y ∷ ys,
            record {
              distinct = w.distinct.1;
              old = λ i h. w.old i (ground (arith, h));
              size = ground (arith, w.size);
              first_node = refl;
              last_node = w.last_node;
              next = λ i h. ground (arith, w.next i, h, w.distinct.0);
            },
            refl,
          ),
          refl,
        ))

  pub remove_first-HoldsItems :
      (l : LinkedList T) (ts : List T)
      → HoldsItems l ts
      → Returns (λ r. HoldsItems r.0 (taken ts).0 × (r.1 ≡ (taken ts).1)) (remove_first l)
  remove_first-HoldsItems l ts (xs, w, e) =
      subst
        (λ us. Returns (λ r. HoldsItems r.0 (taken us).0 × (r.1 ≡ (taken us).1)) (remove_first l)) e
        (remove_first-Chained l xs w)

  -- The same uses of a plain sequence.
  abbrev pub use_plain : List (Use T) → List T → List T × List (Option T)
  use_plain [] ts = (ts, [])
  use_plain (in_front x ∷ us) ts = use_plain us (x ∷ ts)
  use_plain (at_end x ∷ us) ts = use_plain us (ts ++ x ∷ [])
  use_plain (take_first ∷ us) ts =
      let rest = use_plain us (taken ts).0 in (rest.0, (taken ts).1 ∷ rest.1)

  use_all-HoldsItems :
      (us : List (Use T)) (l : LinkedList T) (ts : List T)
      → HoldsItems l ts
      → Returns
          (λ r. HoldsItems r.0 (use_plain us ts).0 × (r.1 ≡ (use_plain us ts).1))
          (use_all us l)
  unfolding use_all
  use_all-HoldsItems [] l ts h = returns _ (h, refl)
  use_all-HoldsItems (in_front x ∷ us) l ts h =
      use_all-HoldsItems us (add_first x l) (x ∷ ts) (add_first-HoldsItems x l ts h)
  use_all-HoldsItems (at_end x ∷ us) l ts h =
      use_all-HoldsItems us (add_last x l) (ts ++ x ∷ []) (add_last-HoldsItems x l ts h)
  use_all-HoldsItems (take_first ∷ us) l ts h =
      Returns-bind _ (remove_first-HoldsItems l ts h) (λ r (left, gave).
        Returns-bind _ (use_all-HoldsItems us r.0 (taken ts).0 left)
          (λ s (in_the_end, gave_then). returns _ (in_the_end, cc)))

  length-items_of : (f : ℕ → ListNode T) (xs : List ℕ) → length (items_of f xs) ≡ length xs
  length-items_of f [] = refl
  length-items_of f (x ∷ xs) = ap suc (length-items_of f xs)

  size_lem : (l : LinkedList T) (ts : List T) → HoldsItems l ts → l.size ≡ length ts
  size_lem l ts (xs, w, e) = w.size ∙ sym (length-items_of l.nodes xs) ∙ ap length e

  abbrev pub contains_plain : (T → T → Bool) → T → List T → Bool
  contains_plain same t [] = false
  contains_plain same t (u ∷ us) = if same u t then true else contains_plain same t us

  index_of_lem :
      (same : T → T → Bool) (t : T) (l : LinkedList T) (xs : List ℕ) (k : ℕ)
      → Distinct xs
      → ((i : ℕ) → member i xs ≡ true → (l.nodes i).next ≡ succ_of i xs)
      → length xs < k
      → index_of same k t (first xs) l
        ≡ ok (if contains_plain same t (items_of l.nodes xs) then pos 0 else negsuc 0)
  unfolding index_of
  index_of_lem same t l xs zero d next enough = absurd (omega arith)
  index_of_lem same t l [] (suc k) d next enough = refl
  index_of_lem same t l (x ∷ xs) (suc k) d next enough =
      let after : (l.nodes x).next ≡ first xs = ground (arith, next x) in
      let rest =
        index_of_lem same t l xs k d.1 (λ i m. ground (arith, next i, m, d.0)) (omega arith) in
      elim (Bool-cases (same (l.nodes x).item t)) [
        | inl it ↦ rw (it, index_of) refl
        | inr other ↦ rw (other, index_of) (ap (λ p. index_of same k t p l) after ∙ rest)
      ]

  contains_item-HoldsItems :
      (same : T → T → Bool) (t : T) (l : LinkedList T) (ts : List T) (k : ℕ)
      → HoldsItems l ts
      → l.size < k
      → contains_item same k t l ≡ ok (contains_plain same t ts)
  unfolding contains_item
  contains_item-HoldsItems same t l ts k (xs, w, e) enough =
      let found = index_of_lem same t l xs k w.distinct w.next (omega (arith, w.size)) in
      let answer : Bool → Run Bool =
        λ b. ok (if b then pos 0 else negsuc 0) >>= λ i. ok (is_found i) in
      let plain : (b : Bool) → answer b ≡ ok b =
        λ b. elim b as (λ c. answer c ≡ ok c) [ true ↦ refl | false ↦ refl ] in
      ap (λ p. index_of same k t p l >>= λ i. ok (is_found i)) w.first_node
      ∙ ap (λ r. r >>= λ i. ok (is_found i)) found
      ∙ plain (contains_plain same t (items_of l.nodes xs))
      ∙ ap (λ us. ok (contains_plain same t us)) e

  -- Any calls of `AddFirst`, `AddLast` and `RemoveFirst` on a new list, in any order, do not panic. The
  -- removals give the items, or the error for an empty list, that they give on a plain sequence; after the calls the
  -- list's size is that of the sequence, and `Contains` finds exactly its items, on fuel above the size.
  pub use_all_refines :
      (same : T → T → Bool) (heap : ℕ → ListNode T) (us : List (Use T))
      → let (ts, gave) = use_plain us [] in
        Returns
          (λ r.
            (r.1 ≡ gave)
            × (r.0.size ≡ length ts)
            × ((t : T) (k : ℕ)
                → length ts < k
                → contains_item same k t r.0 ≡ ok (contains_plain same t ts)))
          (use_all us (new_linked_list heap))
  use_all_refines same heap us =
      let new : Chained (new_linked_list heap) [] = record {
        distinct = tt;
        old = λ i h. absurd cc;
        size = refl;
        first_node = refl;
        last_node = refl;
        next = λ i h. absurd cc;
      } in
      Returns-weaken (use_all-HoldsItems us (new_linked_list heap) [] ([], new, refl))
        (λ r (h, gave).
          let size = size_lem r.0 (use_plain us []).0 h in
          (
            gave,
            size,
            λ t k enough.
                contains_item-HoldsItems same t r.0 (use_plain us []).0 k h (omega (arith, size)),
          ))
