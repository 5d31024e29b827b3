-- ===== src/Kafka/Consumer/Collect.antt =====
-- The batches that `collectBatch` forms, and how many of them a queue has room for.
use native.Mathlib.Nat.{mod-eq_of_lt, le-div_iff_mul-le, lt-div-mul-add, div-mul-le_self}
use common_tools.Prelude.{
  ℕ, zero, suc, ◌+◌, ◌-◌, ◌*◌, ◌/◌, ◌^◌, max, ◌≤◌, ◌<◌, ◌≡◌, ◌≢◌, inl, inr, refl, subst, arith,
  Bool-cases, List, [], ◌∷◌, ◌++◌, length, length-append, append_assoc, leb, if◌then◌else◌,
}
use common_tools.Prelude.Int.{ℤ, pos, leb_ℤ, int64}
use common_tools.Kafka.Consumer.{
  Arrival, message, channel_closed, client_done, session_done, timer_fired, Collected, batch,
  stopped, waiting, collect_loop, collect_batch, batch_queue_capacity,
}

module _ {M : Type 0} where
  abbrev pub messages : List (Arrival M) → List M
  messages [] = []
  messages (message m ∷ rest) = m ∷ messages rest
  messages (channel_closed ∷ rest) = messages rest
  messages (client_done ∷ rest) = messages rest
  messages (session_done ∷ rest) = messages rest
  messages (timer_fired ∷ rest) = messages rest

  -- The batch is what came first, all of it, in order; it is not empty and not too long.
  pub record IsFront (size : ℕ) (arrived ms : List M) : Type 0 where
    pub front : (rest : List M) × (arrived ≡ ms ++ rest)
    pub some_message : 0 < length ms
    pub bounded : length ms ≤ max 1 size

  batch_inj : (ms ns : List M) → batch ms ≡ batch ns → ms ≡ ns
  batch_inj ms ns h = ground arith

  now-IsFront :
      (size : ℕ) (ms ns rest : List M)
      → 0 < length ms
      → length ms ≤ max 1 size
      → batch ms ≡ batch ns
      → IsFront size (ms ++ rest) ns
  now-IsFront size ms ns rest some_message bounded h =
      subst (IsFront size (ms ++ rest)) (batch_inj ms ns h)
        (record { front = (rest, refl); some_message = some_message; bounded = bounded })

  -- A batch that is not full yet is returned only for a reason of its own.
  full_only :
      (size : ℕ) (ms ns rest : List M) (other : Collected M)
      → 0 < length ms
      → length ms ≤ max 1 size
      → other ≢ batch ns
      → (if leb size (length ms) then batch ms else other) ≡ batch ns
      → IsFront size (ms ++ rest) ns
  full_only size ms ns rest other new fits no_batch h = elim (Bool-cases (leb size (length ms))) [
    | inl full ↦ now-IsFront size ms ns rest new fits (ground arith)
    | inr more ↦ absurd (ground arith)
  ]

  collect_loop-IsFront :
      (size : ℕ) (arrivals : List (Arrival M)) (ms ns : List M)
      → 0 < length ms
      → length ms ≤ max 1 size
      → collect_loop size arrivals ms ≡ batch ns
      → IsFront size (ms ++ messages arrivals) ns
  unfolding collect_loop
  collect_loop-IsFront size [] ms ns new fits h =
      full_only size ms ns [] waiting new fits (λ p. ground arith) h
  collect_loop-IsFront size (channel_closed ∷ rest) ms ns new fits h =
      now-IsFront size ms ns (messages rest) new fits h
  collect_loop-IsFront size (timer_fired ∷ rest) ms ns new fits h =
      now-IsFront size ms ns (messages rest) new fits h
  collect_loop-IsFront size (client_done ∷ rest) ms ns new fits h =
      full_only size ms ns (messages rest) stopped new fits (λ p. ground arith) h
  collect_loop-IsFront size (session_done ∷ rest) ms ns new fits h =
      full_only size ms ns (messages rest) stopped new fits (λ p. ground arith) h
  collect_loop-IsFront size (message m ∷ rest) ms ns new fits h =
      elim (Bool-cases (leb size (length ms))) [
        | inl full ↦ now-IsFront size ms ns (m ∷ messages rest) new fits (ground arith)
        | inr more ↦
            let longer = length-append ms (m ∷ []) in
            subst (λ xs. IsFront size xs ns) (append_assoc ms (m ∷ []) (messages rest))
              (collect_loop-IsFront size rest (ms ++ m ∷ []) ns (omega (arith, longer))
                (ground (arith, longer)) (ground arith))
      ]

  -- A batch that `collectBatch` returns is not empty, has at most max(1, `ConsumerBatchSize`) messages, and
  -- they are the first messages that the claim has sent, in the same order, with none left out.
  pub collect_batch-IsFront :
      (size : ℕ) (wait : ℤ) (arrivals : List (Arrival M)) (ns : List M)
      → collect_batch size wait arrivals ≡ batch ns
      → IsFront size (messages arrivals) ns
  unfolding collect_batch
  collect_batch-IsFront size wait [] ns h = absurd (ground arith)
  collect_batch-IsFront size wait (timer_fired ∷ rest) ns h =
      collect_batch-IsFront size wait rest ns h
  collect_batch-IsFront size wait (client_done ∷ rest) ns h = absurd (ground arith)
  collect_batch-IsFront size wait (session_done ∷ rest) ns h = absurd (ground arith)
  collect_batch-IsFront size wait (channel_closed ∷ rest) ns h = absurd (ground arith)
  collect_batch-IsFront size wait (message m ∷ rest) ns h = elim (Bool-cases (leb size 1)) [
    | inl single ↦
        now-IsFront size (m ∷ []) ns (messages rest) (omega arith) (omega arith) (ground arith)
    | inr more ↦ elim (Bool-cases (leb_ℤ wait (pos 0))) [
      | inl at_once ↦
          now-IsFront size (m ∷ []) ns (messages rest) (omega arith) (omega arith) (ground arith)
      | inr later ↦
          collect_loop-IsFront size rest (m ∷ []) ns (omega arith) (omega arith) (ground arith)
    ]
  ]

int64_small : (t : ℕ) → t < 2 ^ 63 → int64 t ≡ pos t
int64_small t h = ground (arith, mod-eq_of_lt {n = t} {m = 2 ^ 64} (omega arith))

-- The capacity, for a sum that is not cut.
capacity_value :
    (n m : ℕ)
    → n + suc m < 2 ^ 63
    → batch_queue_capacity (pos (suc n)) (pos (suc m)) ≡ (n + suc m) / suc m
unfolding batch_queue_capacity
capacity_value n m h =
    let sum : suc n + suc m - 1 ≡ n + suc m = omega arith in
    let some_room =
      (le-div_iff_mul-le {k = suc m} {x = 1} {y = n + suc m} (omega arith)).1 (omega arith) in
    rw (sum, int64_small (n + suc m) h, batch_queue_capacity) (omega (arith, some_room))

-- A queue of batches has room for at least one batch; and, as long as the two sizes together stay below
-- 2^62, for just as many full ones as hold the configured number of messages.
pub batch_queue_capacity_lem :
    (n m : ℕ)
    → 0 < n
    → 0 < m
    → n + m < 2 ^ 62
    → let k = batch_queue_capacity (pos n) (pos m) in (0 < k) × (n ≤ k * m) × (k * m < n + m)
batch_queue_capacity_lem zero m h i j = absurd (omega arith)
batch_queue_capacity_lem (suc n) zero h i j = absurd (omega arith)
batch_queue_capacity_lem (suc n) (suc m) h i j =
    let t = n + suc m in
    rw (capacity_value n m (omega arith)) (
      (le-div_iff_mul-le {k = suc m} {x = 1} {y = t} (omega arith)).1 (omega arith),
      omega (arith, lt-div-mul-add {a = t} {b = suc m} (omega arith)),
      omega (arith, div-mul-le_self t (suc m)),
    )
