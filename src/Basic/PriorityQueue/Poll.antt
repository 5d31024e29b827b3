-- ===== src/Basic/PriorityQueue/Poll.antt =====
-- `Poll` gives out the elements in the order of their strings.
use common_tools.Prelude.{
  ℕ, zero, suc, ◌+◌, ◌-◌, ◌<◌, ◌≡◌, ◌⊎◌, refl, sym, Bool, true, false, Option, none, some, List,
  length, get_or, take, set, arith, ◌==◌, if◌then◌else◌, one, count, inl, inr, count-take,
  count-set, count-none, get_or-take, get_or-set, length-take, length-set, get_elem?-get_or,
}
use common_tools.Prelude.Run.{ok, Returns, returns, Returns-if, Returns-bind, Returns-weaken}
use common_tools.Basic.PriorityQueue.{
  peek, ObjectPriorityQueue, below, load, shrink, down_loop, parent, poll,
}
use common_tools.Basic.PriorityQueue.Order.{below_trans, below_irrefl}
use common_tools.Basic.PriorityQueue.Swaps.{InOrder, IsHeap}
use common_tools.Basic.PriorityQueue.Down.{DownInv, Sunk, down_loop-Sunk}
use common_tools.Basic.PriorityQueue.Offer.{IsQueue}

module _ {T : Type 0} (key : T → List ℕ) (z : T) where
  top_over_from :
      (m : Bool) (n k : ℕ) (a : List T) (i : ℕ)
      → IsHeap key z m n a
      → i < k
      → i < n
      → InOrder key z m a 0 i
  top_over_from m n zero a i h f hi = absurd (omega arith)
  top_over_from m n (suc k) a i h f hi = ground (
    arith,
    h i,
    below_irrefl key m (get_or a 0 z),
    top_over_from m n k a (parent i) h,
    below_trans key m (get_or a 0 z) (get_or a (parent i) z) (get_or a i z),
  )

  -- The slice after `Poll`, without `x`.
  record Taken (q : ObjectPriorityQueue T) (x : T) (b : List T) : Type 0 where
    size : length b ≡ q.size - 1
    heap : IsHeap key z q.max_first (q.size - 1) b
    elements : (p : T → Bool) → count p q.arr ≡ count p b + one (p x)

  module _ (q : ObjectPriorityQueue T) (w : IsQueue key z q) where
    -- The only element leaves.
    last-Taken : q.size ≡ 1 → Taken q (get_or q.arr 0 z) (take (q.size - 1) q.arr)
    last-Taken e =
        let none_left : q.size - 1 ≡ 0 = omega (arith, e) in
        let all = λ (p : T → Bool). count-take p 0 q.arr z (omega (arith, w.counted, e)) in
        rw none_left record {
          size = sym none_left;
          heap = λ c pc hc. absurd (omega (arith, e));
          elements = all;
        }

    abbrev refilled : List T
    refilled = set q.arr 0 (get_or q.arr (q.size - 1) z)

    refilled-DownInv : 1 < q.size → DownInv key z q.max_first (q.size - 1) refilled 0
    refilled-DownInv h =
        let first = λ (k : ℕ).
          get_or-set q.arr 0 k (get_or q.arr (q.size - 1) z) z (omega (arith, w.counted)) in
        record {
          fits = omega (arith, length-set q.arr 0 (get_or q.arr (q.size - 1) z), w.counted);
          edges = λ c pc hc nc. ground (arith, first c, first (parent c), w.heap c);
          bridged = λ c pc hc e pos. absurd (omega arith);
        }

    -- The last element takes the first place and sinks.
    Sunk-Taken :
        (b : List T)
        → 1 < q.size
        → Sunk key z q.max_first (q.size - 1) refilled b
        → Taken q (get_or q.arr 0 z) (take (q.size - 1) b)
    Sunk-Taken b h s =
        let n = q.size - 1 in
        let kept = length-set q.arr 0 (get_or q.arr n z) in
        record {
          size = length-take n b (omega (arith, s.size, kept, w.counted));
          heap = λ c pc hc.
              ground (arith, s.heap c, get_or-take n b c z, get_or-take n b (parent c) z);
          elements = λ p. ground (
            arith,
            s.same p,
            s.beyond n,
            w.counted,
            count-set p q.arr 0 (get_or q.arr n z) z (omega (arith, w.counted)),
            count-take p n b z (omega (arith, s.size, kept, w.counted)),
            get_or-set q.arr 0 n (get_or q.arr n z) z (omega (arith, w.counted)),
          );
        }

  Taken-IsQueue :
      (q : ObjectPriorityQueue T) (x : T) (b : List T)
      → IsQueue key z q
      → Taken q x b
      → IsQueue key z (record q { arr = b; size = q.size - 1; cap = shrink key (q.size - 1) q.cap })
  unfolding shrink
  Taken-IsQueue q x b w t = record {
    counted = t.size;
    fits = ground (arith, w.fits);
    heap = t.heap;
  }

  -- What `Poll` does: it gives what `Peek` shows; an empty queue stays as it is; any other gives out one element, the others stay,
  -- and none of them belongs before it.
  pub record Polled (q : ObjectPriorityQueue T) (r : ObjectPriorityQueue T × Option T)
      : Type 0 where
    pub queue : IsQueue key z r.0
    pub order : r.0.max_first ≡ q.max_first
    pub peeked : peek key q ≡ ok r.1
    pub outcome :
        ((q.size ≡ 0) × (r ≡ (q, none)))
        ⊎ ((x : T) × (r.1 ≡ some x)
            × (q.size ≡ r.0.size + 1)
            × ((p : T → Bool) → count p q.arr ≡ count p r.0.arr + one (p x))
            × (count (below key q.max_first x) r.0.arr ≡ 0))

  pub peek_first :
      (q : ObjectPriorityQueue T)
      → IsQueue key z q
      → 0 < q.size
      → peek key q ≡ ok (some (get_or q.arr 0 z))
  unfolding peek load
  peek_first q w pos =
      let filled : (q.size == 0) ≡ false = ground (arith, pos) in
      rw (filled, get_elem?-get_or q.arr 0 z (omega (arith, w.counted))) refl

  pub peek-none : (q : ObjectPriorityQueue T) → q.size ≡ 0 → peek key q ≡ ok none
  unfolding peek
  peek-none q h = let e : (q.size == 0) ≡ true = ground (arith, h) in rw e refl

  -- No element belongs before the first.
  pub none_before_first :
      (q : ObjectPriorityQueue T)
      → IsQueue key z q
      → count (below key q.max_first (get_or q.arr 0 z)) q.arr ≡ 0
  none_before_first q w = count-none (below key q.max_first (get_or q.arr 0 z)) q.arr z (λ i hi.
      top_over_from q.max_first q.size (suc i) q.arr i w.heap (omega arith)
        (omega (arith, w.counted)))

  Taken-Polled :
      (q : ObjectPriorityQueue T) (b : List T)
      → IsQueue key z q
      → 0 < q.size
      → Taken q (get_or q.arr 0 z) b
      → Polled q (
        record q { arr = b; size = q.size - 1; cap = shrink key (q.size - 1) q.cap },
        some (get_or q.arr 0 z),
      )
  Taken-Polled q b w pos t =
      let x = get_or q.arr 0 z in
      let none_before = none_before_first q w in
      record {
        queue = Taken-IsQueue q x b w t;
        order = refl;
        peeked = peek_first q w pos;
        outcome = inr (
          x,
          refl,
          omega (arith, pos),
          t.elements,
          omega (arith, t.elements (below key q.max_first x), none_before),
        );
      }

  remaining :
      (q : ObjectPriorityQueue T) (w : IsQueue key z q)
      → 0 < q.size
      → Returns
          (λ b. Taken q (get_or q.arr 0 z) (take (q.size - 1) b))
          (if q.size - 1 == 0
            then ok q.arr
            else down_loop key (q.size - 1 + 1) q.max_first (q.size - 1) (refilled q w) 0)
  remaining q w pos =
      Returns-if (q.size - 1 == 0) (λ e. returns q.arr (last-Taken q w (ground (arith, e))))
        (λ more.
          let several : 1 < q.size = ground (arith, more) in
          Returns-weaken
            (down_loop-Sunk key z q.max_first (q.size - 1) (q.size - 1 + 1) (refilled q w) 0
              (omega arith) (omega (arith, several)) (refilled-DownInv q w several))
            (λ b s. Sunk-Taken q w b several s))

  -- A queue in order gives the element that `Peek` shows to `Poll`: none that stays belongs before it, and the queue stays
  -- in order. An empty one returns the error. No index is out of range, and the loop of `down` ends.
  pub poll_takes : (q : ObjectPriorityQueue T) → IsQueue key z q → Returns (Polled q) (poll key q)
  unfolding poll load
  poll_takes q w =
      Returns-if (q.size == 0)
        (λ e.
          returns (q, none)
            (record {
              queue = w;
              order = refl;
              peeked = peek-none q (ground (arith, e));
              outcome = inl (ground arith, refl);
            }))
        (λ filled.
          let pos : 0 < q.size = ground arith in
          rw
            (
              get_elem?-get_or q.arr 0 z (omega (arith, w.counted)),
              get_elem?-get_or q.arr (q.size - 1) z (omega (arith, w.counted)),
            )
            (Returns-bind _ (remaining q w pos)
              (λ b t. returns _ (Taken-Polled q (take (q.size - 1) b) w pos t))))
