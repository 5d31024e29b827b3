-- ===== src/Basic/LinkedList.antt =====
-- pkg/basic/linked_list.go: a doubly linked list. Nodes lie on a heap, at addresses that are numbers; nil is `none`.
pub mod Chained
pub mod Ends
mod Tests
use common_tools.Prelude.{
  ℕ, zero, suc, ◌+◌, ◌-◌, Bool, true, false, Option, none, some, List, [], ◌∷◌, ◌++◌, ◌==◌,
  if◌then◌else◌,
}
use common_tools.Prelude.Int.{ℤ, pos, negsuc}
use common_tools.Prelude.Run.{Run, ok, panic, out_of_fuel, ◌>>=◌}

pub record ListNode (T : Type 0) : Type 0 where
  pub item : T
  pub prev : Option ℕ
  pub next : Option ℕ

pub record LinkedList (T : Type 0) : Type 0 where
  pub nodes : ℕ → ListNode T
  pub fresh : ℕ
  pub size : ℕ
  pub first : Option ℕ
  pub last : Option ℕ

-- `i != -1`
abbrev pub is_found : ℤ → Bool
is_found (pos _) = true
is_found (negsuc _) = false

module _ {T : Type 0} where
  abbrev pub store_at : ℕ → ListNode T → (ℕ → ListNode T) → ℕ → ListNode T
  store_at n v nodes i = if i == n then v else nodes i

  unfoldable pub add_first : T → LinkedList T → LinkedList T
  add_first item l =
      let n = l.fresh in
      elim l.first [
        | none ↦ record {
          nodes = store_at n (record { item = item; prev = none; next = none }) l.nodes;
          fresh = n + 1;
          size = l.size + 1;
          first = some n;
          last = some n;
        }
        | some f ↦
            let made = store_at n (record { item = item; prev = none; next = some f }) l.nodes in
            record {
              nodes = store_at f (record (made f) { prev = some n }) made;
              fresh = n + 1;
              size = l.size + 1;
              first = some n;
              last = l.last;
            }
      ]

  unfoldable pub add_last : T → LinkedList T → LinkedList T
  add_last item l =
      let n = l.fresh in
      elim l.last [
        | none ↦ record {
          nodes = store_at n (record { item = item; prev = none; next = none }) l.nodes;
          fresh = n + 1;
          size = l.size + 1;
          first = some n;
          last = some n;
        }
        | some t ↦
            let made = store_at n (record { item = item; prev = some t; next = none }) l.nodes in
            record {
              nodes = store_at t (record (made t) { next = some n }) made;
              fresh = n + 1;
              size = l.size + 1;
              first = l.first;
              last = some n;
            }
      ]

  -- The removals leave the links of the node that stays; `none` is the error for an empty list.
  unfoldable pub remove_first : LinkedList T → Run (LinkedList T × Option T)
  remove_first l = if l.size == 0 then ok (l, none) else elim l.first [
    | none ↦ panic
    | some f ↦ elim (l.nodes f).next [
      | some g ↦ ok (record l { first = some g; size = l.size - 1 }, some (l.nodes f).item)
      | none ↦ ok (record l { first = none; last = none; size = l.size - 1 }, some (l.nodes f).item)
    ]
  ]

  unfoldable pub remove_last : LinkedList T → Run (LinkedList T × Option T)
  remove_last l = if l.size == 0 then ok (l, none) else elim l.last [
    | none ↦ panic
    | some t ↦ elim (l.nodes t).prev [
      | some p ↦ ok (record l { last = some p; size = l.size - 1 }, some (l.nodes t).item)
      | none ↦ ok (record l { first = none; last = none; size = l.size - 1 }, some (l.nodes t).item)
    ]
  ]

  module _ (same : T → T → Bool) where
    -- The loop of `indexOf`, from the node `p` on; it never counts `index`.
    unfoldable pub index_of : ℕ → T → Option ℕ → LinkedList T → Run ℤ
    index_of zero item p l = out_of_fuel
    index_of (suc k) item none l = ok (negsuc 0)
    index_of (suc k) item (some n) l =
        let rest = index_of k item (l.nodes n).next l in
        if same (l.nodes n).item item then ok (pos 0) else rest

    -- `indexOf(item) != -1`
    unfoldable pub contains_item : ℕ → T → LinkedList T → Run Bool
    unfolding index_of
    contains_item k item l = index_of k item l.first l >>= λ i. ok (is_found i)

-- A use of the list as a queue that also takes items at the front.
pub data Use (T : Type 0) : Type 0 where
  in_front : T → Use T
  at_end : T → Use T
  take_first : Use T

module _ {T : Type 0} where
  -- The list after the uses, and what the removals gave.
  unfoldable pub use_all : List (Use T) → LinkedList T → Run (LinkedList T × List (Option T))
  use_all [] l = ok (l, [])
  use_all (in_front x ∷ us) l = use_all us (add_first x l)
  use_all (at_end x ∷ us) l = use_all us (add_last x l)
  use_all (take_first ∷ us) l = remove_first l >>= λ r. use_all us r.0 >>= λ s. ok (s.0, r.1 ∷ s.1)

  abbrev pub new_linked_list : (ℕ → ListNode T) → LinkedList T
  new_linked_list heap = record { nodes = heap; fresh = 0; size = 0; first = none; last = none }
