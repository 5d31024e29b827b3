-- ===== src/Basic/PriorityQueue/Up.antt =====
-- `up` restores the heap order above an entry.
use common_tools.Prelude.{
  ℕ, zero, suc, ◌<◌, ◌≡◌, ◌≢◌, refl, Bool, true, List, length, get_or, arith, ◌==◌, count, ◌∙◌,
}
use common_tools.Prelude.Run.{Returns, returns, Returns-if, Returns-weaken}
use common_tools.Basic.PriorityQueue.{below, up_loop, parent}
use common_tools.Basic.PriorityQueue.Order.{below_asymm, below_trans}
use common_tools.Basic.PriorityQueue.Swaps.{
  InOrder, IsHeap, swapped, compare-ok, swap-ok, length-swapped, get_or-swapped, count-swapped,
}

module _ {T : Type 0} (key : T → List ℕ) (z : T) (m : Bool) where
  -- A heap of the first `n` entries, of the elements of `a`.
  pub record Sifted (n : ℕ) (a b : List T) : Type 0 where
    pub heap : IsHeap key z m n b
    pub size : length b ≡ length a
    pub same : (p : T → Bool) → count p b ≡ count p a

  -- Only the entry at `i` may be out of order with its parent.
  pub record UpInv (a : List T) (i : ℕ) : Type 0 where
    pub edges : (k : ℕ) → 0 < k → k < length a → k ≢ i → InOrder key z m a (parent k) k
    pub inside : i < length a
    pub bridged :
        (k : ℕ) → 0 < k → k < length a → parent k ≡ i → 0 < i → InOrder key z m a (parent i) k

  module _ (a : List T) (i : ℕ) (v : UpInv a i) (pos : 0 < i)
      (out : below key m (get_or a (parent i) z) (get_or a i z) ≡ true) where
    swap-edges :
        (c : ℕ)
        → 0 < c
        → c < length a
        → c ≢ parent i
        → InOrder key z m (swapped key z a (parent i) i) (parent c) c
    swap-edges c pc hc nc =
        let at = get_or-swapped key z a (parent i) i (omega (arith, v.inside)) v.inside in
        let up_i = below_asymm key m (get_or a (parent i) z) (get_or a i z) out in
        let over = below_trans key m (get_or a i z) (get_or a (parent i) z) (get_or a c z) up_i in
        ground (arith, at c, at (parent c), v.edges c, v.bridged c, up_i, over)

    swap-bridged :
        (c : ℕ)
        → 0 < c
        → c < length a
        → parent c ≡ parent i
        → 0 < parent i
        → InOrder key z m (swapped key z a (parent i) i) (parent (parent i)) c
    swap-bridged c pc hc e pp =
        let at = get_or-swapped key z a (parent i) i (omega (arith, v.inside)) v.inside in
        let above = v.edges (parent i) (omega arith) (omega (arith, v.inside)) (omega arith) in
        let over =
          below_trans key m (get_or a (parent (parent i)) z) (get_or a (parent i) z) (get_or a c z)
            above in
        ground (arith, at c, at (parent (parent i)), v.edges c, above, over)

    swap-UpInv : UpInv (swapped key z a (parent i) i) (parent i)
    swap-UpInv =
        let size = length-swapped key z a (parent i) i (omega (arith, v.inside)) v.inside in
        record {
          inside = omega (arith, size, v.inside);
          edges = λ c pc hc nc. swap-edges c pc (omega (arith, size)) nc;
          bridged = λ c pc hc e pp. swap-bridged c pc (omega (arith, size)) e pp;
        }

  abbrev pub SiftedFrom : List T → List T → Type 0
  SiftedFrom a b = Sifted (length a) a b

  pub up_loop-Sifted :
      (k : ℕ) (a : List T) (i : ℕ)
      → i < k
      → UpInv a i
      → Returns (SiftedFrom a) (up_loop key k m a i)
  unfolding up_loop
  up_loop-Sifted zero a i f v = absurd (omega arith)
  up_loop-Sifted (suc k) a i f v =
      let above : parent i < length a = omega (arith, v.inside) in
      rw
        (
          compare-ok key z m a (parent i) i above v.inside,
          swap-ok key z a (parent i) i above v.inside,
        )
        (Returns-if (i == 0)
          (λ root. returns a (record {
            heap = λ c pc hc. v.edges c pc hc (ground arith);
            size = refl;
            same = λ p. refl;
          }))
          (λ inner.
            Returns-if (below key m (get_or a (parent i) z) (get_or a i z))
              (λ out.
                Returns-weaken
                  (up_loop-Sifted k (swapped key z a (parent i) i) (parent i) (ground arith)
                    (swap-UpInv a i v (ground arith) out))
                  (λ b s.
                    let size = length-swapped key z a (parent i) i above v.inside in
                    record {
                      heap = λ c pc hc. s.heap c pc (omega (arith, size));
                      size = s.size ∙ size;
                      same = λ p. s.same p ∙ count-swapped key z a (parent i) i above v.inside p;
                    }))
              (λ settled. returns a (record {
                heap = λ c pc hc. ground (arith, v.edges c);
                size = refl;
                same = λ p. refl;
              }))))
