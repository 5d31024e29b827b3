-- ===== src/Basic/LinkedList/Chained.antt =====
-- A node that is added at an end joins the chain of the links.
use common_tools.Prelude.{
  ℕ, ◌<◌, ◌≡◌, refl, subst, ap, ◌∙◌, true, false, Option, none, some, List, [], ◌∷◌, ◌++◌, arith,
  ◌==◌, if◌then◌else◌, Bool-cases, inl, inr, length, length-append,
}
use common_tools.Basic.Chain.{
  member, Distinct, is_at, first, last_from, succ_of, succ_of-append, member-append,
  append-Distinct, last_from-append, last_from-some,
}
use common_tools.Basic.LinkedList.{ListNode, LinkedList, add_first, add_last}

-- What is outside a list is not its last element, and has no successor at its end.
not_last :
    (p : Option ℕ) (n : ℕ) (xs : List ℕ)
    → is_at p n ≡ false
    → member n xs ≡ false
    → is_at (last_from p xs) n ≡ false
not_last p n [] h m = h
not_last p n (x ∷ xs) h m = ground (arith, m, not_last (some x) n xs)

succ_of-end : (n : ℕ) (xs : List ℕ) → member n xs ≡ false → succ_of n (xs ++ n ∷ []) ≡ none
succ_of-end n [] m = ground arith
succ_of-end n (x ∷ xs) m = ground (arith, m, succ_of-end n xs)

module _ {T : Type 0} where
  -- From the first node on, the list holds the nodes `xs`.
  pub record Chained (l : LinkedList T) (xs : List ℕ) : Type 0 where
    pub distinct : Distinct xs
    pub old : (i : ℕ) → member i xs ≡ true → i < l.fresh
    pub size : l.size ≡ length xs
    pub first_node : l.first ≡ first xs
    pub last_node : l.last ≡ last_from none xs
    pub next : (i : ℕ) → member i xs ≡ true → (l.nodes i).next ≡ succ_of i xs

  abbrev pub items_of : (ℕ → ListNode T) → List ℕ → List T
  items_of nodes [] = []
  items_of nodes (x ∷ xs) = (nodes x).item ∷ items_of nodes xs

  -- The list holds these items in this order.
  abbrev pub HoldsItems : LinkedList T → List T → Type 0
  HoldsItems l ts = (xs : List ℕ) × Chained l xs × (items_of l.nodes xs ≡ ts)

  items_of-same :
      (f g : ℕ → ListNode T) (xs : List ℕ)
      → ((i : ℕ) → member i xs ≡ true → (f i).item ≡ (g i).item)
      → items_of f xs ≡ items_of g xs
  items_of-same f g [] h = refl
  items_of-same f g (x ∷ xs) h =
      let rest = items_of-same f g xs (λ i m. h i (ground (arith, m))) in
      let front = h x (ground arith) in cc

  items_of-append :
      (f : ℕ → ListNode T) (n : ℕ) (xs : List ℕ)
      → items_of f (xs ++ n ∷ []) ≡ items_of f xs ++ (f n).item ∷ []
  items_of-append f n [] = refl
  items_of-append f n (x ∷ xs) = ap (λ ts. (f x).item ∷ ts) (items_of-append f n xs)

  new_out : (l : LinkedList T) (xs : List ℕ) → Chained l xs → member l.fresh xs ≡ false
  new_out l xs w = elim (Bool-cases (member l.fresh xs)) [
    | inl inside ↦ absurd (omega (arith, w.old l.fresh inside))
    | inr out ↦ out
  ]

  module _ (t : T) (l : LinkedList T) (xs : List ℕ) (w : Chained l xs) where
    out : member l.fresh xs ≡ false
    out = new_out l xs w

    front_first : (add_first t l).first ≡ some l.fresh
    unfolding add_first
    front_first = ground arith

    front_last : (add_first t l).last ≡ last_from (some l.fresh) xs
    unfolding add_first
    front_last = go xs w.first_node w.last_node
      where
        go :
            (ys : List ℕ)
            → l.first ≡ first ys
            → l.last ≡ last_from none ys
            → (add_first t l).last ≡ last_from (some l.fresh) ys
        go [] f e = ground (arith, f)
        go (y ∷ ys) f e = ground (arith, f, e)

    pub front-Chained : Chained (add_first t l) (l.fresh ∷ xs)
    unfolding add_first
    front-Chained = record {
      distinct = (out, w.distinct);
      old = λ i h. ground (arith, w.old i, h);
      size = ground (arith, w.size);
      first_node = front_first;
      last_node = front_last;
      next = λ i h. ground (arith, w.next i, h, out, w.first_node);
    }

    pub front_items : items_of (add_first t l).nodes (l.fresh ∷ xs) ≡ t ∷ items_of l.nodes xs
    unfolding add_first
    front_items =
        let mine : ((add_first t l).nodes l.fresh).item ≡ t = ground arith in
        let rest = items_of-same (add_first t l).nodes l.nodes xs (λ i m. ground (arith, m, out)) in
        cc

    end_first : (add_last t l).first ≡ first (xs ++ l.fresh ∷ [])
    unfolding add_last
    end_first = go xs w.first_node w.last_node
      where
        go :
            (ys : List ℕ)
            → l.first ≡ first ys
            → l.last ≡ last_from none ys
            → (add_last t l).first ≡ first (ys ++ l.fresh ∷ [])
        go [] f e = ground (arith, e)
        go (y ∷ ys) f e = ground (arith, f, e, last_from-some y ys)

    end_link :
        (i : ℕ)
        → ((add_last t l).nodes i).next ≡ (
            if is_at l.last i
            then some l.fresh
            else if l.fresh == i
            then none
            else (l.nodes i).next)
    unfolding add_last
    end_link i = ground arith

    end_next :
        (i : ℕ)
        → member i (xs ++ l.fresh ∷ []) ≡ true
        → ((add_last t l).nodes i).next ≡ succ_of i (xs ++ l.fresh ∷ [])
    end_next i h = elim (Bool-cases (l.fresh == i)) [
      | inl new ↦
          let at : l.fresh ≡ i = ground (arith, new) in
          let apart = not_last none l.fresh xs refl out in
          subst (λ j. ((add_last t l).nodes j).next ≡ succ_of j (xs ++ l.fresh ∷ [])) at
            (ground (arith, end_link l.fresh, apart, w.last_node, succ_of-end l.fresh xs out))
      | inr past ↦
          let inside : member i xs ≡ true = ground (arith, h, past, member-append l.fresh i xs) in
          ground (
            arith,
            end_link i,
            past,
            w.last_node,
            w.next i inside,
            succ_of-append none l.fresh i xs w.distinct refl inside,
          )
    ]

    pub end-Chained : Chained (add_last t l) (xs ++ l.fresh ∷ [])
    unfolding add_last
    end-Chained = record {
      distinct = append-Distinct l.fresh xs w.distinct out;
      old = λ i h. ground (arith, w.old i, h, member-append l.fresh i xs);
      size = ground (arith, w.size, length-append xs (l.fresh ∷ []));
      first_node = end_first;
      last_node = ground (arith, last_from-append none l.fresh xs);
      next = end_next;
    }

    pub end_items :
        items_of (add_last t l).nodes (xs ++ l.fresh ∷ []) ≡ items_of l.nodes xs ++ t ∷ []
    unfolding add_last
    end_items =
        let d = add_last t l in
        let mine : (d.nodes l.fresh).item ≡ t = ground arith in
        let rest = items_of-same d.nodes l.nodes xs (λ i m. ground (arith, m, out)) in
        items_of-append d.nodes l.fresh xs
        ∙ ap (λ u. items_of d.nodes xs ++ u ∷ []) mine
        ∙ ap (λ ts. ts ++ t ∷ []) rest
