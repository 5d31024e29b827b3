-- ===== src/Basic/PriorityQueue/Offer.antt =====
-- A queue that is in order, and `Offer`.
use common_tools.Prelude.{
  ℕ, ◌+◌, ◌≤◌, ◌<◌, ◌≡◌, refl, ap, Bool, List, [], ◌∷◌, ◌++◌, length, take, arith, ltb,
  if◌then◌else◌, one, count, count-append, get_or-append, length-append, take-length,
}
use common_tools.Prelude.Run.{Returns, returns, Returns-bind}
use common_tools.Basic.PriorityQueue.{ObjectPriorityQueue, parent, offer}
use common_tools.Basic.PriorityQueue.Swaps.{IsHeap}
use common_tools.Basic.PriorityQueue.Up.{UpInv, up_loop-Sifted}

module _ {T : Type 0} (key : T → List ℕ) (z : T) where
  -- The slice has as many elements as the queue, and they are a heap.
  pub record IsQueue (q : ObjectPriorityQueue T) : Type 0 where
    pub counted : length q.arr ≡ q.size
    pub fits : q.size ≤ q.cap
    pub heap : IsHeap key z q.max_first q.size q.arr

  -- What `Offer` does: one element more.
  pub record Offered (e : T) (q r : ObjectPriorityQueue T) : Type 0 where
    pub queue : IsQueue r
    pub order : r.max_first ≡ q.max_first
    pub size : r.size ≡ q.size + 1
    pub elements : (p : T → Bool) → count p r.arr ≡ count p q.arr + one (p e)

  append-UpInv :
      (e : T) (q : ObjectPriorityQueue T)
      → IsQueue q
      → UpInv key z q.max_first (q.arr ++ e ∷ []) q.size
  append-UpInv e q w = record {
    inside = omega (arith, length-append q.arr (e ∷ []), w.counted);
    edges = λ c pc hc nc. ground (
      arith,
      length-append q.arr (e ∷ []),
      w.counted,
      w.heap c,
      get_or-append q.arr (e ∷ []) c z,
      get_or-append q.arr (e ∷ []) (parent c) z,
    );
    bridged = λ c pc hc h pos. absurd (omega (arith, length-append q.arr (e ∷ []), w.counted));
  }

  -- An element is added, and the queue stays in order, whatever capacity a full slice is given, if it grows.
  pub offer_adds :
      (grow : ℕ → ℕ) (e : T) (q : ObjectPriorityQueue T)
      → ((c : ℕ) → c < grow c)
      → IsQueue q
      → Returns (Offered e q) (offer key grow e q)
  unfolding offer
  offer_adds grow e q more w =
      let size = length-append q.arr (e ∷ []) in
      let same_arr : (if ltb q.size q.cap then take q.size q.arr else q.arr) ≡ q.arr =
        ground (arith, take-length q.arr, ap (λ k. take k q.arr) w.counted) in
      rw same_arr (
        Returns-bind _
          (up_loop-Sifted key z q.max_first (q.size + 1) (q.arr ++ e ∷ []) q.size (omega arith)
            (append-UpInv e q w))
          (λ b s. returns _ (record {
            queue = record {
              counted = omega (arith, s.size, size, w.counted);
              fits = ground (arith, w.fits, more q.cap);
              heap = λ c pc hc. s.heap c pc (omega (arith, size, w.counted));
            };
            order = refl;
            size = refl;
            elements = λ p. omega (arith, s.same p, count-append p q.arr (e ∷ []));
          })))
