-- ===== src/Basic/RingQueue/Fifo.antt =====
-- The ring refines a bounded first-in first-out queue.
use native.Mathlib.Nat.{mod-eq_of_lt, mod-eq-sub-mod, mod-add-mod}
use native.Mathlib.Decide.{dec_lt}
use common_tools.Prelude.{
  ℕ, suc, ◌+◌, ◌-◌, ◌%◌, ◌≤◌, ◌<◌, ◌≡◌, ◌≢◌, ◌⊎◌, refl, ap, true, false, none, some, List, [], ◌∷◌,
  ◌++◌, arith, length, get_elem?, length-set, length-append, length-replicate, get_elem?-set,
  get_elem?-append, ltb, ◌==◌, if◌then◌else◌, Bool-cases, inl, inr, ==_iff,
}
use common_tools.Basic.RingQueue.{
  SafeRingQueue, ok, full, empty, new_safe_ring_queue, store, fetch, at_head, enqueue, dequeue,
  peek,
}

-- Where a step of fewer than `c` places from `h` lands.
wrap : (c h i : ℕ) → h < c → i ≤ c → (h + i) % c ≡ (if ltb (h + i) c then h + i else h + i - c)
wrap c h i hh hi = elim (dec_lt (h + i) c) [
  | yes p ↦ ground (arith, mod-eq_of_lt p)
  | no p ↦ ground (
    arith,
    mod-eq-sub-mod {n = h + i} {m = c} (omega arith),
    mod-eq_of_lt {n = h + i - c} {m = c} (omega arith),
  )
]

module _ {A : Type 0} where
  -- The queue holds exactly `xs`, the oldest first.
  pub record Holds (q : SafeRingQueue A) (xs : List A) : Type 0 where
    pub room : length q.slots ≡ q.capacity
    pub start : (q.head < q.capacity) ⊎ (q.capacity ≡ 0)
    pub count : q.size ≡ length xs
    pub fits : length xs ≤ q.capacity
    pub finish : q.tail ≡ (q.head + q.size) % q.capacity
    pub at :
        (i : ℕ)
        → i < length xs
        → get_elem? q.slots ((q.head + i) % q.capacity) ≡ some (get_elem? xs i)

  -- A new queue holds nothing.
  pub new-Holds : (cap : ℕ) → Holds (new_safe_ring_queue cap) []
  unfolding new_safe_ring_queue
  new-Holds cap = record {
    room = length-replicate cap none;
    start = ground arith;
    count = refl;
    fits = omega arith;
    finish = omega arith;
    at = λ i h. absurd (omega arith);
  }

  module _ (v : A) {q : SafeRingQueue A} {xs : List A} (h : Holds q xs)
      (free : q.size ≢ q.capacity) where
    store-at :
        (i : ℕ)
        → i < length xs + 1
        → get_elem? (store v q).slots ((q.head + i) % q.capacity)
          ≡ some (get_elem? (xs ++ v ∷ []) i)
    unfolding store
    store-at i hi = ground (
      arith,
      h,
      h.at i,
      wrap q.capacity q.head i,
      wrap q.capacity q.head q.size,
      get_elem?-set q.slots q.tail ((q.head + i) % q.capacity) (some v),
      get_elem?-append xs (v ∷ []) i,
    )

    pub store-Holds : Holds (store v q) (xs ++ v ∷ [])
    unfolding store
    store-Holds = record {
      room = ground (arith, h, length-set q.slots q.tail (some v));
      start = h.start;
      count = omega (arith, h, length-append xs (v ∷ []));
      fits = omega (arith, h, length-append xs (v ∷ []));
      finish = rw h.finish (rw mod-add-mod (ap (λ k. k % q.capacity) (omega arith)));
      at = λ i hi. store-at i (omega (arith, length-append xs (v ∷ [])));
    }

  -- A full queue refuses the value and stays as it is; any other takes it as its youngest.
  pub enqueue_refines :
      (v : A) {q : SafeRingQueue A} {xs : List A}
      → Holds q xs
      → ((length xs ≡ q.capacity) × (enqueue v q ≡ (q, full)))
        ⊎ ((length xs < q.capacity)
            × ((enqueue v q).1 ≡ ok tt)
            × Holds (enqueue v q).0 (xs ++ v ∷ []))
  unfolding enqueue
  enqueue_refines v {q} {xs} h = elim (Bool-cases (q.size == q.capacity)) [
    | inl e ↦ inl (omega (arith, h, (==_iff q.size q.capacity).0 e), rw e)
    | inr e ↦
        let free : q.size ≢ q.capacity = ground arith in
        inr (omega (arith, h, free), rw e, rw e (store-Holds v h free))
  ]

  module _ (x : A) {q : SafeRingQueue A} {xs : List A} (h : Holds q (x ∷ xs)) where
    head-at : at_head q ≡ ok (some x)
    unfolding at_head
    head-at =
        let first : get_elem? q.slots q.head ≡ some (some x) =
          ground (arith, h, h.at 0, wrap q.capacity q.head 0) in
        rw (first, at_head)

    -- A step from the next head is one more step from this one.
    next_step :
        (i : ℕ) → ((q.head + 1) % q.capacity + i) % q.capacity ≡ (q.head + suc i) % q.capacity
    next_step i = rw mod-add-mod (ap (λ k. k % q.capacity) (omega arith))

    fetch-at :
        (i : ℕ)
        → i < length xs
        → get_elem? (fetch q).slots (((q.head + 1) % q.capacity + i) % q.capacity)
          ≡ some (get_elem? xs i)
    unfolding fetch
    fetch-at i hi = rw (next_step i) (
        ground (
          arith,
          h,
          h.at (suc i),
          wrap q.capacity q.head (suc i),
          get_elem?-set q.slots q.head ((q.head + suc i) % q.capacity) none,
        ))

    fetch-Holds : Holds (fetch q) xs
    unfolding fetch
    fetch-Holds = record {
      room = ground (arith, h, length-set q.slots q.head none);
      start = inl (ground (arith, h, wrap q.capacity q.head 1));
      count = omega (arith, h);
      fits = omega (arith, h);
      finish = rw (h.finish, next_step (q.size - 1)) (ap (λ k. k % q.capacity) (omega (arith, h)));
      at = fetch-at;
    }

  -- An empty queue gives nothing; any other gives its oldest value, as `Peek` does, and keeps the rest.
  pub dequeue_refines :
      {q : SafeRingQueue A} (xs : List A)
      → Holds q xs
      → ((xs ≡ []) × (dequeue q ≡ (q, empty)) × (peek q ≡ empty))
        ⊎ ((x : A) × (ys : List A) × (xs ≡ x ∷ ys)
            × ((dequeue q).1 ≡ ok (some x))
            × (peek q ≡ ok (some x))
            × Holds (dequeue q).0 ys)
  unfolding dequeue peek
  dequeue_refines {q} [] h =
      let none_left : (q.size == 0) ≡ true = (==_iff q.size 0).1 h.count in
      inl (refl, rw none_left, rw none_left)
  dequeue_refines {q} (x ∷ xs) h =
      let left : (q.size == 0) ≡ false = ground (arith, h) in
      inr (x, xs, refl, rw left (head-at x h), rw left (head-at x h), rw left (fetch-Holds x h))
