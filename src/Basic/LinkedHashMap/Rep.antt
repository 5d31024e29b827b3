-- ===== src/Basic/LinkedHashMap/Rep.antt =====
-- The links of the nodes follow an order, and the map finds the nodes in it.
use common_tools.Prelude.{ℕ, ◌≡◌, refl, true, false, Option, none, some, List, [], ◌∷◌, arith}
use common_tools.Basic.Chain.{
  member, Distinct, is_at, first, last_from, succ_of, pred_from, erase, succ_of-erase,
  pred_from-erase, first-erase, last_from-erase, member-erase, erase-Distinct, or_else,
  pred_from-itself, last_from-some, front_pred,
}
use common_tools.Basic.LinkedHashMap.{LinkedHashMap, unlink, push_front}

front_tail :
    (xs : List ℕ) (n : ℕ) (tail : Option ℕ)
    → tail ≡ last_from none xs
    → or_else tail (some n) tail ≡ last_from (some n) xs
front_tail [] n tail h = rw h refl
front_tail (x ∷ xs) n tail h = ground (arith, h, last_from-some x xs)

module _ {K T : Type 0} where
  -- The list holds the nodes `xs` in this order.
  pub record Linked (m : LinkedHashMap K T) (xs : List ℕ) : Type 0 where
    pub distinct : Distinct xs
    pub head : m.head ≡ first xs
    pub tail : m.tail ≡ last_from none xs
    pub prev : (i : ℕ) → member i xs ≡ true → (m.nodes i).prev ≡ pred_from none i xs
    pub next : (i : ℕ) → member i xs ≡ true → (m.nodes i).next ≡ succ_of i xs

  module _ (n : ℕ) (m : LinkedHashMap K T) (xs : List ℕ) (l : Linked m xs)
      (in_list : member n xs ≡ true) where
    -- No node is its own neighbour.
    itself : is_at (pred_from none n xs) n ≡ false
    itself = pred_from-itself none n xs l.distinct refl

    unlink-next :
        (i : ℕ)
        → member i (erase n xs) ≡ true
        → ((unlink n m).nodes i).next ≡ succ_of i (erase n xs)
    unfolding unlink
    unlink-next i h = ground (
      arith,
      l.next i,
      l.next n in_list,
      l.prev n in_list,
      in_list,
      member-erase n i xs l.distinct,
      succ_of-erase none n i xs l.distinct refl,
    )

    unlink-head : (unlink n m).head ≡ first (erase n xs)
    unfolding unlink
    unlink-head =
        ground (arith, l.head, l.prev n in_list, l.next n in_list, first-erase n xs in_list)

    unlink-prev :
        (i : ℕ)
        → member i (erase n xs) ≡ true
        → ((unlink n m).nodes i).prev ≡ pred_from none i (erase n xs)
    unfolding unlink
    unlink-prev i h = ground (
      arith,
      l.prev i,
      l.next n in_list,
      l.prev n in_list,
      in_list,
      member-erase n i xs l.distinct,
      pred_from-erase none n i xs l.distinct,
      itself,
    )

    unlink-tail : (unlink n m).tail ≡ last_from none (erase n xs)
    unfolding unlink
    unlink-tail = ground (
      arith,
      l.tail,
      l.prev n in_list,
      l.next n in_list,
      last_from-erase none n xs in_list,
      itself,
    )

    pub unlink-Linked : Linked (unlink n m) (erase n xs)
    unlink-Linked = record {
      distinct = erase-Distinct n xs l.distinct;
      head = unlink-head;
      tail = unlink-tail;
      prev = unlink-prev;
      next = unlink-next;
    }

  pub unlink-key : (n i : ℕ) (m : LinkedHashMap K T) → ((unlink n m).nodes i).key ≡ (m.nodes i).key
  unfolding unlink
  unlink-key n i m = ground arith

  pub unlink-value :
      (n i : ℕ) (m : LinkedHashMap K T) → ((unlink n m).nodes i).value ≡ (m.nodes i).value
  unfolding unlink
  unlink-value n i m = ground arith

  -- A node outside the list becomes its first.
  pub push_front-Linked :
      (n : ℕ) (m : LinkedHashMap K T) (xs : List ℕ)
      → Linked m xs
      → member n xs ≡ false
      → Linked (push_front n m) (n ∷ xs)
  unfolding push_front
  push_front-Linked n m xs l out = record {
    distinct = (out, l.distinct);
    head = refl;
    tail = front_tail xs n m.tail l.tail;
    prev = λ i h. ground (arith, l.prev i, l.head, h, out, front_pred n i xs l.distinct);
    next = λ i h. ground (arith, l.next i, l.head, h, out);
  }

  pub push_front-key :
      (n i : ℕ) (m : LinkedHashMap K T) → ((push_front n m).nodes i).key ≡ (m.nodes i).key
  unfolding push_front
  push_front-key n i m = ground arith

  pub push_front-value :
      (n i : ℕ) (m : LinkedHashMap K T) → ((push_front n m).nodes i).value ≡ (m.nodes i).value
  unfolding push_front
  push_front-value n i m = ground arith

  pub Linked-of_same :
      (m : LinkedHashMap K T) (xs : List ℕ) (fresh : ℕ) (f : K → Option ℕ) (len : ℕ)
      → Linked m xs
      → Linked (record m { fresh = fresh; item_map = f; len = len }) xs
  Linked-of_same m xs fresh f len l = record {
    distinct = l.distinct;
    head = l.head;
    tail = l.tail;
    prev = l.prev;
    next = l.next;
  }
