-- ===== src/Basic/PriorityQueue/Down.antt =====
-- `down` restores the heap order below an entry.
use common_tools.Prelude.{
  ℕ, zero, suc, ◌+◌, ◌-◌, ◌*◌, ◌≤◌, ◌<◌, ◌≡◌, ◌≢◌, ◌⊎◌, refl, subst, Bool, List, length, get_or,
  arith, ◌==◌, ltb, count, Bool-cases, inl, inr, ◌∙◌,
}
use common_tools.Prelude.Run.{Returns, returns, Returns-if, Returns-bind, Returns-weaken, ◌>>=◌}
use common_tools.Basic.PriorityQueue.{below, down_loop, pick, parent, swap}
use common_tools.Basic.PriorityQueue.Order.{below_asymm, below_trans, below_irrefl}
use common_tools.Basic.PriorityQueue.Swaps.{
  InOrder, IsHeap, swapped, compare-ok, swap-ok, length-swapped, get_or-swapped, count-swapped,
}

two_children : (c i : ℕ) → 0 < c → parent c ≡ i → (c ≡ i * 2 + 1) ⊎ (c ≡ i * 2 + 2)
two_children c i pc e = ground arith

module _ {T : Type 0} (key : T → List ℕ) (z : T) (m : Bool) (n : ℕ) where
  -- As for `up`; the entries from `n` on stay where they are.
  pub record Sunk (a b : List T) : Type 0 where
    pub heap : IsHeap key z m n b
    pub size : length b ≡ length a
    pub same : (p : T → Bool) → count p b ≡ count p a
    pub beyond : (i : ℕ) → n ≤ i → get_or b i z ≡ get_or a i z

  -- Only the entries below `i` may be out of order with it.
  pub record DownInv (a : List T) (i : ℕ) : Type 0 where
    pub fits : n ≤ length a
    pub edges : (c : ℕ) → 0 < c → c < n → parent c ≢ i → InOrder key z m a (parent c) c
    pub bridged : (c : ℕ) → 0 < c → c < n → parent c ≡ i → 0 < i → InOrder key z m a (parent i) c

  -- What one test chooses between `t` and `c`.
  record Picked (a : List T) (t c r : ℕ) : Type 0 where
    either : (r ≡ t) ⊎ ((r ≡ c) × (c < n))
    over_first : InOrder key z m a r t
    over_second : c < n → InOrder key z m a r c

  pick-Picked :
      (a : List T) (t c : ℕ) → n ≤ length a → t < n → Returns (Picked a t c) (pick key m n a t c)
  unfolding pick
  pick-Picked a t c fits ht =
      Returns-if (ltb c n)
        (λ there.
          rw (compare-ok key z m a t c (omega arith) (ground arith))
            (elim (Bool-cases (below key m (get_or a t z) (get_or a c z))) [
              | inl out ↦ rw out (
                  returns c (record {
                    either = inr (refl, ground arith);
                    over_first = below_asymm key m (get_or a t z) (get_or a c z) out;
                    over_second = λ h. below_irrefl key m (get_or a c z);
                  }))
              | inr kept ↦ rw kept (
                  returns t (record {
                    either = inl refl;
                    over_first = below_irrefl key m (get_or a t z);
                    over_second = λ h. kept;
                  }))
            ]))
        (λ missing. returns t (record {
          either = inl refl;
          over_first = below_irrefl key m (get_or a t z);
          over_second = λ h. absurd (ground arith);
        }))

  -- What both tests choose among `i` and its children.
  record IsChosen (a : List T) (i t : ℕ) : Type 0 where
    inside : t < n
    lower : (t ≡ i) ⊎ ((i < t) × (parent t ≡ i))
    over_self : InOrder key z m a t i
    over_children : (c : ℕ) → 0 < c → c < n → parent c ≡ i → InOrder key z m a t c

  Picked-IsChosen :
      (a : List T) (i l t : ℕ)
      → i < n
      → Picked a i (i * 2 + 1) l
      → Picked a l (i * 2 + 2) t
      → IsChosen a i t
  Picked-IsChosen a i l t hi f s =
      let trans : (c : ℕ) → InOrder key z m a l c → InOrder key z m a t c =
        λ c. below_trans key m (get_or a t z) (get_or a l z) (get_or a c z) s.over_first in
      record {
        inside = ground (arith, f.either, s.either);
        lower = ground (arith, f.either, s.either);
        over_self = trans i f.over_first;
        over_children = λ c pc hc e. over c pc hc e trans;
      }
    where
      over :
          (c : ℕ)
          → 0 < c
          → c < n
          → parent c ≡ i
          → ((k : ℕ) → InOrder key z m a l k → InOrder key z m a t k)
          → InOrder key z m a t c
      over c pc hc e trans =
          ground (arith, trans c, f.over_second, s.over_second, two_children c i pc e)

  module _ (a : List T) (i t : ℕ) (v : DownInv a i) (s : IsChosen a i t) (down : t ≢ i) where
    swap-edges :
        (c : ℕ) → 0 < c → c < n → parent c ≢ t → InOrder key z m (swapped key z a i t) (parent c) c
    swap-edges c pc hc nc =
        let at =
          get_or-swapped key z a i t (omega (arith, s.inside, s.lower, v.fits))
            (omega (arith, s.inside, v.fits)) in
        ground (
          arith,
          at c,
          at (parent c),
          v.edges c,
          v.bridged t,
          s.lower,
          s.inside,
          s.over_self,
          s.over_children c,
        )

    swap-DownInv : DownInv (swapped key z a i t) t
    swap-DownInv =
        let ti : i < length a = omega (arith, s.inside, s.lower, v.fits) in
        let tt : t < length a = omega (arith, s.inside, v.fits) in
        let at = get_or-swapped key z a i t ti tt in
        record {
          fits = omega (arith, length-swapped key z a i t ti tt, v.fits);
          edges = swap-edges;
          bridged = λ c pc hc e pt. ground (arith, at c, at (parent t), v.edges c, s.lower);
        }

    swap-beyond : (k : ℕ) → n ≤ k → get_or (swapped key z a i t) k z ≡ get_or a k z
    swap-beyond k h =
        let ti : i < length a = omega (arith, s.inside, s.lower, v.fits) in
        let tt : t < length a = omega (arith, s.inside, v.fits) in
        ground (arith, get_or-swapped key z a i t ti tt k, s.inside, s.lower)

  sink-Sunk :
      (k : ℕ) (a : List T) (i t : ℕ)
      → DownInv a i
      → IsChosen a i t
      → t ≢ i
      → Returns (Sunk (swapped key z a i t)) (down_loop key k m n (swapped key z a i t) t)
      → Returns (Sunk a) (swap key a i t >>= λ b. down_loop key k m n b t)
  sink-Sunk k a i t v s down rest =
      let ti : i < length a = omega (arith, s.inside, s.lower, v.fits) in
      let tt : t < length a = omega (arith, s.inside, v.fits) in
      rw (swap-ok key z a i t ti tt) (
        Returns-weaken rest (λ b r. record {
          heap = r.heap;
          size = r.size ∙ length-swapped key z a i t ti tt;
          same = λ p. r.same p ∙ count-swapped key z a i t ti tt p;
          beyond = λ h q. r.beyond h q ∙ swap-beyond a i t v s down h q;
        }))

  settled-Sunk : (a : List T) (i : ℕ) → DownInv a i → IsChosen a i i → Sunk a a
  settled-Sunk a i v s = record {
    heap = λ c pc hc. ground (arith, v.edges c, s.over_children c);
    size = refl;
    same = λ p. refl;
    beyond = λ k h. refl;
  }

  pub down_loop-Sunk :
      (k : ℕ) (a : List T) (i : ℕ)
      → n - i < k
      → i < n
      → DownInv a i
      → Returns (Sunk a) (down_loop key k m n a i)
  unfolding down_loop
  down_loop-Sunk zero a i f hi v = absurd (omega arith)
  down_loop-Sunk (suc k) a i f hi v =
      Returns-bind _ (pick-Picked a i (i * 2 + 1) v.fits hi) (λ l first.
        let hl : l < n = ground (arith, first.either) in
        Returns-bind _ (pick-Picked a l (i * 2 + 2) v.fits hl) (λ t second.
          let s = Picked-IsChosen a i l t hi first second in
          Returns-if (t == i)
            (λ same.
              let e : t ≡ i = ground arith in
              returns a (settled-Sunk a i v (subst (IsChosen a i) e s)))
            (λ lower.
              let down : t ≢ i = ground arith in
              sink-Sunk k a i t v s down (
                down_loop-Sunk k (swapped key z a i t) t (ground (arith, s.lower)) s.inside
                  (swap-DownInv a i t v s down)))))
