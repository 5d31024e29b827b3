-- ===== src/Basic/PriorityQueue/Swaps.antt =====
-- The heap order, and what a swap does to a slice.
use common_tools.Prelude.{
  ℕ, ◌<◌, ◌≡◌, refl, ap, Bool, false, List, length, length-set, get_or, get_or-set,
  get_elem?-get_or, set, arith, ◌==◌, if◌then◌else◌, count, count-set,
}
use native.Mathlib.Decide.{ℕ_discrete}
use common_tools.Prelude.Run.{ok}
use common_tools.Basic.PriorityQueue.{below, load, compare, swap, parent}

-- `z` is the zero value of the elements.
module _ {T : Type 0} (key : T → List ℕ) (z : T) where
  -- The entries at `i` and `j` are in order, `i` standing above `j`.
  abbrev pub InOrder : Bool → List T → ℕ → ℕ → Type 0
  InOrder m a i j = below key m (get_or a i z) (get_or a j z) ≡ false

  -- Among the first `n` entries, each is in order with its parent.
  abbrev pub IsHeap : Bool → ℕ → List T → Type 0
  IsHeap m n a = (c : ℕ) → 0 < c → c < n → InOrder m a (parent c) c

  abbrev pub swapped : List T → ℕ → ℕ → List T
  swapped a i j = set (set a i (get_or a j z)) j (get_or a i z)

  pub compare-ok :
      (m : Bool) (a : List T) (i j : ℕ)
      → i < length a
      → j < length a
      → compare key m a i j ≡ ok (below key m (get_or a i z) (get_or a j z))
  unfolding compare load
  compare-ok m a i j hi hj = rw (get_elem?-get_or a i z hi, get_elem?-get_or a j z hj) refl

  module _ (a : List T) (i j : ℕ) (hi : i < length a) (hj : j < length a) where
    pub swap-ok : swap key a i j ≡ ok (swapped a i j)
    unfolding swap load
    swap-ok = rw (get_elem?-get_or a i z hi, get_elem?-get_or a j z hj) refl

    pub length-swapped : length (swapped a i j) ≡ length a
    length-swapped =
        omega (
          arith,
          length-set (set a i (get_or a j z)) j (get_or a i z),
          length-set a i (get_or a j z),
        )

    pub get_or-swapped :
        (k : ℕ)
        → get_or (swapped a i j) k z
          ≡ (if j == k then get_or a i z else if i == k then get_or a j z else get_or a k z)
    get_or-swapped k =
        let size = length-set a i (get_or a j z) in
        ground (
          arith,
          get_or-set (set a i (get_or a j z)) j k (get_or a i z) z (omega (arith, size)),
          get_or-set a i k (get_or a j z) z hi,
        )

    pub count-swapped : (p : T → Bool) → count p (swapped a i j) ≡ count p a
    count-swapped p =
        let size = length-set a i (get_or a j z) in
        let old = get_or-set a i j (get_or a j z) z hi in
        let second =
          count-set p (set a i (get_or a j z)) j (get_or a i z) z (omega (arith, size)) in
        let first = count-set p a i (get_or a j z) z hi in
        elim (ℕ_discrete i j) [
          | yes e ↦ ground (arith, first, second, old, ap (λ k. get_or a k z) e)
          | no e ↦ ground (arith, first, second, old)
        ]
