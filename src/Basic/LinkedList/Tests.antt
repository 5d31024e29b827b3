-- ===== src/Basic/LinkedList/Tests.antt =====
-- Lists of numbers.
use common_tools.Prelude.{ℕ, ◌≡◌, ◌<◌, refl, Bool, true, none, some, List, [], ◌∷◌, ◌==◌, length}
use common_tools.Prelude.Run.{ok, Returns, ◌>>=◌}
use common_tools.Basic.LinkedList.{
  ListNode, LinkedList, add_first, add_last, remove_first, remove_last, index_of, contains_item,
  Use, in_front, at_end, take_first, use_all, new_linked_list,
}
use common_tools.Basic.LinkedList.Ends.{use_plain, contains_plain, use_all_refines}

abbrev same : ℕ → ℕ → Bool
same a b = a == b

abbrev blank : ℕ → ListNode ℕ
blank i = record { item = 0; prev = none; next = none }

abbrev uses : List (Use ℕ)
uses = at_end 2 ∷ at_end 3 ∷ in_front 1 ∷ take_first ∷ take_first ∷ []

use_all_refines_example :
    let (ts, gave) = use_plain uses [] in
    Returns
      (λ r.
        (r.1 ≡ gave)
        × (r.0.size ≡ length ts)
        × ((t k : ℕ) → length ts < k → contains_item same k t r.0 ≡ ok (contains_plain same t ts)))
      (use_all uses (new_linked_list blank))
use_all_refines_example = use_all_refines same blank uses

gave_in_order : (use_plain uses []).1 ≡ some 1 ∷ some 2 ∷ []
gave_in_order = refl

abbrev two : LinkedList ℕ
two = add_last 2 (add_last 1 (new_linked_list blank))

-- An item that `RemoveLast` gave is still found.
found_after_all : (remove_last two >>= λ r. contains_item same 9 2 r.0) ≡ ok true
unfolding add_last remove_last contains_item index_of
found_after_all = refl

-- The list [1, 2] is emptied from both ends; then 3 is added, and `RemoveLast` gives the 1 again.
given_twice :
    (remove_first two >>= λ a.
    remove_last a.0 >>= λ b. remove_last (add_first 3 b.0) >>= λ c. ok c.1)
    ≡ ok (some 1)
unfolding add_last add_first remove_first remove_last
given_twice = refl
