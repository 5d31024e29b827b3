-- ===== src/Basic/RingQueue/Tests.antt =====
-- Runs of the ring queue, and its theorems at concrete queues.
use common_tools.Prelude.{
  ℕ, ◌+◌, ◌%◌, ◌≡◌, ◌<◌, ◌⊎◌, inl, refl, none, some, List, [], ◌∷◌, ◌++◌, arith, length, get_elem?,
}
use common_tools.Basic.RingQueue.{
  SafeRingQueue, ok, full, empty, new_safe_ring_queue, enqueue as put, dequeue, peek,
}
use common_tools.Basic.RingQueue.Fifo.{Holds, enqueue_refines, dequeue_refines}
use common_tools.Basic.RingQueue.Monitor.{
  Monitor, IsAwake, Reach, here, next, block_dequeue, enqueue, try_fetch, new_monitor,
  no_lost_wakeup,
}

abbrev pair : List ℕ
pair = 8 ∷ 9 ∷ []

-- 8, then 9, round the end of the slice.
abbrev wrapped : SafeRingQueue ℕ
wrapped = record { slots = some 9 ∷ none ∷ some 8 ∷ []; capacity = 3; head = 2; tail = 1; size = 2 }

wrapped-Holds : Holds wrapped pair
wrapped-Holds = record {
  room = refl;
  start = inl (omega arith);
  count = refl;
  fits = omega arith;
  finish = refl;
  at = at;
}
  where
    at : (i : ℕ) → i < 2 → get_elem? wrapped.slots ((2 + i) % 3) ≡ some (get_elem? pair i)
    at ℕ.zero h = refl
    at (ℕ.suc ℕ.zero) h = refl
    at (ℕ.suc (ℕ.suc i)) h = absurd (omega arith)

refused : (put 7 (put 6 wrapped).0).1 ≡ full
unfolding put
refused = refl

enqueue_refines_example :
    ((length pair ≡ 3) × (put 7 wrapped ≡ (wrapped, full)))
    ⊎ ((length pair < 3) × ((put 7 wrapped).1 ≡ ok tt) × Holds (put 7 wrapped).0 (pair ++ 7 ∷ []))
enqueue_refines_example = enqueue_refines 7 wrapped-Holds

dequeue_refines_example :
    ((pair ≡ []) × (dequeue wrapped ≡ (wrapped, empty)) × (peek wrapped ≡ empty))
    ⊎ ((x : ℕ) × (ys : List ℕ) × (pair ≡ x ∷ ys)
        × ((dequeue wrapped).1 ≡ ok (some x))
        × (peek wrapped ≡ ok (some x))
        × Holds (dequeue wrapped).0 ys)
dequeue_refines_example = dequeue_refines pair wrapped-Holds

-- A consumer sleeps on the empty queue, and a value arrives.
woken : (m : Monitor ℕ) × Reach (new_monitor 3) m
unfolding new_monitor new_safe_ring_queue try_fetch
woken = (_, next (next here block_dequeue) (enqueue 5 (omega arith)))

no_lost_wakeup_example : IsAwake woken.0
no_lost_wakeup_example = no_lost_wakeup 3 woken.1
