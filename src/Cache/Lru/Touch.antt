-- ===== src/Cache/Lru/Touch.antt =====
-- Moving a node to the head is unlinking it and putting it in front.
use common_tools.Prelude.{ℕ, ◌≡◌, refl, true, false, none, List, arith}
use common_tools.Basic.Chain.{
  member, is_at, or_else, pred_from-itself, succ_of-itself, last-succ, pred_from-inner,
  last_from-filled,
}
use common_tools.Basic.LinkedHashMap.{LinkedHashMap, unlink, push_front}
use common_tools.Basic.LinkedHashMap.Rep.{Linked}
use common_tools.Cache.Lru.{touch}

module _ {K T : Type 0} (n : ℕ) (m : LinkedHashMap K T) (xs : List ℕ) (l : Linked m xs)
    (in_list : member n xs ≡ true) (behind : is_at m.head n ≡ false) where
  abbrev moved : LinkedHashMap K T
  moved = push_front n (unlink n m)

  not_prev : is_at (m.nodes n).prev n ≡ false
  not_prev = ground (arith, l.prev n in_list, pred_from-itself none n xs l.distinct refl)

  not_next : is_at (m.nodes n).next n ≡ false
  not_next = ground (arith, l.next n in_list, succ_of-itself n xs l.distinct)

  has_prev : or_else (m.nodes n).prev true false ≡ false
  has_prev = ground (arith, l.prev n in_list, l.head, behind, pred_from-inner n xs in_list)

  pub touch-next : (i : ℕ) → ((touch n m).nodes i).next ≡ (moved.nodes i).next
  unfolding touch unlink push_front
  touch-next i = ground (arith, behind, not_prev, not_next, has_prev)

  pub touch-prev : (i : ℕ) → ((touch n m).nodes i).prev ≡ (moved.nodes i).prev
  unfolding touch unlink push_front
  touch-prev i = ground (arith, behind, not_prev, not_next, has_prev)

  pub touch-head : (touch n m).head ≡ moved.head
  unfolding touch unlink push_front
  touch-head = ground (arith, behind)

  pub touch-tail : (touch n m).tail ≡ moved.tail
  unfolding touch unlink push_front
  touch-tail = ground (
    arith,
    behind,
    not_prev,
    not_next,
    has_prev,
    l.tail,
    l.next n in_list,
    last-succ none n xs l.distinct refl in_list,
    last_from-filled n xs in_list,
  )
