-- ===== src/Basic/PriorityQueue/Search.antt =====
-- `Contains` looks for an element with the same string.
use common_tools.Prelude.{
  ℕ, zero, suc, ◌+◌, ◌≤◌, ◌<◌, ◌≡◌, refl, Bool, true, false, Option, none, some, List, [], ◌∷◌,
  length, get_or, drop, arith, ltb, one, count, get_elem?-get_or,
}
use common_tools.Prelude.Run.{ok, Returns, returns, Returns-if}
use common_tools.Basic.PriorityQueue.{ObjectPriorityQueue, str_equal, load, index_loop, contains}

abbrev is_some : {A : Type 0} → Option A → Bool
is_some none = false
is_some (some _) = true

module _ {T : Type 0} (key : T → List ℕ) (z : T) where
  -- The element has the string of `e`.
  abbrev pub same_string : T → T → Bool
  same_string e x = str_equal (key x) (key e)

  count-drop :
      (p : T → Bool) (a : List T) (i : ℕ)
      → i < length a
      → count p (drop i a) ≡ one (p (get_or a i z)) + count p (drop (suc i) a)
  count-drop p [] i h = absurd (omega arith)
  count-drop p (x ∷ a) zero h = refl
  count-drop p (x ∷ a) (suc i) h = count-drop p a i (omega arith)

  count-drop-all : (p : T → Bool) (a : List T) (i : ℕ) → length a ≤ i → count p (drop i a) ≡ 0
  count-drop-all p [] zero h = refl
  count-drop-all p [] (suc i) h = refl
  count-drop-all p (x ∷ a) zero h = absurd (omega arith)
  count-drop-all p (x ∷ a) (suc i) h = count-drop-all p a i (omega arith)

  index_loop_finds :
      (k : ℕ) (a : List T) (e : T) (i : ℕ)
      → i + k ≡ length a
      → Returns (λ r. is_some r ≡ ltb 0 (count (same_string e) (drop i a))) (index_loop key k a e i)
  unfolding index_loop load
  index_loop_finds zero a e i h =
      returns none (ground (arith, count-drop-all (same_string e) a i (omega (arith, h))))
  index_loop_finds (suc k) a e i h =
      let next = count-drop (same_string e) a i (omega (arith, h)) in
      let step : i + 1 ≡ suc i = omega arith in
      rw (get_elem?-get_or a i z (omega (arith, h))) (
        Returns-if (same_string e (get_or a i z))
          (λ found. returns (some i) (ground (arith, next, found)))
          (λ other.
            let (r, d, f) = index_loop_finds k a e (i + 1) (omega (arith, h)) in
            (r, d, ground (arith, next, other, f))))

  -- `Contains` says whether the queue has an element with the string of `e`, for a queue that has as many
  -- elements as its slice; it does not panic.
  pub contains_lem :
      (e : T) (q : ObjectPriorityQueue T)
      → length q.arr ≡ q.size
      → contains key e q ≡ ok (ltb 0 (count (same_string e) q.arr))
  unfolding contains
  contains_lem e q h =
      let (r, d, f) = index_loop_finds q.size q.arr e 0 (omega (arith, h)) in
      rw d (ground (arith, f))
