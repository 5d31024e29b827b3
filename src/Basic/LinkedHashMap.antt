-- ===== src/Basic/LinkedHashMap.antt =====
-- pkg/basic/linked_hash_map.go: a map whose entries stand in a doubly linked list. Nodes lie on a heap, at the
-- address that is a number; nil is `none`. The node at `fresh` is the next to be allocated. `same` is
-- the equality of the keys.
pub mod Rep
pub mod Entries
pub mod Refine
pub mod Move
pub mod Put
pub mod Ends
pub mod Walk
mod Tests
use common_tools.Prelude.{
  ℕ, zero, suc, ◌+◌, ◌-◌, Bool, true, false, Option, none, some, List, [], ◌∷◌, ◌==◌, if◌then◌else◌,
  map,
}
use common_tools.Basic.Chain.{is_at, or_else}

pub record Node (K T : Type 0) : Type 0 where
  pub key : K
  pub value : T
  pub prev : Option ℕ
  pub next : Option ℕ

pub record LinkedHashMap (K T : Type 0) : Type 0 where
  pub nodes : ℕ → Node K T
  pub fresh : ℕ
  pub item_map : K → Option ℕ
  pub len : ℕ
  pub head : Option ℕ
  pub tail : Option ℕ

-- `itemMap[k] = v`, and `delete(itemMap, k)` for `none`
abbrev pub map_set : {K : Type 0} → (K → K → Bool) → K → Option ℕ → (K → Option ℕ) → K → Option ℕ
map_set same k v f j = if same j k then v else f j

module _ {K T : Type 0} where
  -- `*n = v`, `n.next = v` and `n.prev = v`; the last two behind a test for nil.
  abbrev pub store_node : ℕ → Node K T → (ℕ → Node K T) → ℕ → Node K T
  store_node n v nodes i = if i == n then v else nodes i

  abbrev pub set_next : Option ℕ → Option ℕ → (ℕ → Node K T) → ℕ → Node K T
  set_next none v nodes i = nodes i
  set_next (some n) v nodes i = if i == n then record (nodes i) { next = v } else nodes i

  abbrev pub set_prev : Option ℕ → Option ℕ → (ℕ → Node K T) → ℕ → Node K T
  set_prev none v nodes i = nodes i
  set_prev (some n) v nodes i = if i == n then record (nodes i) { prev = v } else nodes i

  -- The node leaves the list.
  unfoldable pub unlink : ℕ → LinkedHashMap K T → LinkedHashMap K T
  unlink n m =
      let nodes1 = set_next (m.nodes n).prev (m.nodes n).next m.nodes in
      let head = or_else (m.nodes n).prev (m.nodes n).next m.head in
      let nodes2 = set_prev (nodes1 n).next (nodes1 n).prev nodes1 in
      let tail = or_else (nodes1 n).next (nodes1 n).prev m.tail in
      record m { nodes = nodes2; head = head; tail = tail }

  -- The node, which is in no list, becomes the first.
  unfoldable pub push_front : ℕ → LinkedHashMap K T → LinkedHashMap K T
  push_front n m =
      let nodes1 = store_node n (record (m.nodes n) { prev = none; next = m.head }) m.nodes in
      record m {
        nodes = set_prev m.head (some n) nodes1;
        head = some n;
        tail = or_else m.tail (some n) m.tail;
      }

  module _ (same : K → K → Bool) where
    unfoldable pub put : K → T → LinkedHashMap K T → LinkedHashMap K T
    put k v m = elim (m.item_map k) [
      | some n ↦ record m { nodes = store_node n (record (m.nodes n) { value = v }) m.nodes }
      | none ↦
          let n = m.fresh in
          let node : Node K T = record { key = k; value = v; prev = m.tail; next = none } in
          record {
            nodes = set_next m.tail (some n) (store_node n node m.nodes);
            fresh = n + 1;
            item_map = map_set same k (some n) m.item_map;
            len = m.len + 1;
            head = or_else m.tail (some n) m.head;
            tail = some n;
          }
    ]

    unfoldable pub get : K → LinkedHashMap K T → Option T
    get k m = elim (m.item_map k) [ none ↦ none | some n ↦ some (m.nodes n).value ]

    unfoldable pub remove : K → LinkedHashMap K T → LinkedHashMap K T
    unfolding unlink
    remove k m = elim (m.item_map k) [
      | none ↦ m
      | some n ↦
          let u = unlink n m in
          record u { item_map = map_set same k none u.item_map; len = u.len - 1 }
    ]

    -- The key of an end leaves; `none` stands for the zero key, which an empty map returns.
    unfoldable pub remove_end : Option ℕ → LinkedHashMap K T → LinkedHashMap K T × Option K
    unfolding remove
    remove_end none m = (m, none)
    remove_end (some n) m = (remove (m.nodes n).key m, some (m.nodes n).key)

    unfoldable pub remove_first : LinkedHashMap K T → LinkedHashMap K T × Option K
    unfolding remove_end
    remove_first m = remove_end m.head m

    unfoldable pub remove_last : LinkedHashMap K T → LinkedHashMap K T × Option K
    unfolding remove_end
    remove_last m = remove_end m.tail m

    unfoldable pub move_to_head : K → LinkedHashMap K T → LinkedHashMap K T
    unfolding unlink push_front
    move_to_head k m = elim (m.item_map k) [
      | none ↦ m
      | some n ↦ if is_at m.head n then m else push_front n (unlink n m)
    ]

  -- `NewLinkHashMap`; the heap is that of the program.
  abbrev pub new_linked_hash_map : (ℕ → Node K T) → ℕ → LinkedHashMap K T
  new_linked_hash_map nodes fresh = record {
    nodes = nodes;
    fresh = fresh;
    item_map = λ k. none;
    len = 0;
    head = none;
    tail = none;
  }

  -- The loop of `Keys` and `Values`.
  unfoldable pub walk : ℕ → Option ℕ → LinkedHashMap K T → List (Node K T)
  walk zero p m = []
  walk (suc k) none m = []
  walk (suc k) (some n) m = let rest = walk k (m.nodes n).next m in m.nodes n ∷ rest

  -- The list has as many nodes as the map counts, so the fuel is enough.
  unfoldable pub keys : LinkedHashMap K T → List K
  unfolding walk
  keys m = map (λ n. n.key) (walk (m.len + 1) m.head m)

  unfoldable pub values : LinkedHashMap K T → List T
  unfolding walk
  values m = map (λ n. n.value) (walk (m.len + 1) m.head m)
