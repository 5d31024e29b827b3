-- ===== src/Basic/RingQueue/Monitor.antt =====
-- The blocking methods under the mutex and its two condition variables: threads that sleep, threads
-- that a signal has woken and that have yet to take the mutex, and all others, which arrive at will.
use common_tools.Prelude.{ℕ, ◌+◌, ◌-◌, ◌≤◌, ◌<◌, ◌≡◌, ◌≢◌, ◌⊎◌, arith, ◌==◌, if◌then◌else◌}
use common_tools.Basic.RingQueue.{SafeRingQueue, new_safe_ring_queue, store, fetch}

-- The threads of one condition variable.
pub record Waiters : Type 0 where
  pub asleep : ℕ
  pub woken : ℕ

-- `Signal`: one sleeper, if there is one, wakes.
abbrev pub signal : Waiters → Waiters
signal w = if w.asleep == 0 then w else record w { asleep = w.asleep - 1; woken = w.woken + 1 }

abbrev pub fall_asleep : Waiters → Waiters
fall_asleep w = record w { asleep = w.asleep + 1 }

-- A woken thread takes the mutex.
abbrev pub resume : Waiters → Waiters
resume w = record w { woken = w.woken - 1 }

pub record Monitor (A : Type 0) : Type 0 where
  pub queue : SafeRingQueue A
  pub not_full : Waiters
  pub not_empty : Waiters

module _ {A : Type 0} where
  -- A thread has the mutex: it stores and signals, or waits for room. So for a fetch.
  unfoldable pub try_store : A → Monitor A → Monitor A
  unfolding store
  try_store v m =
      if m.queue.size == m.queue.capacity
      then record m { not_full = fall_asleep m.not_full }
      else record m { queue = store v m.queue; not_empty = signal m.not_empty }

  unfoldable pub try_fetch : Monitor A → Monitor A
  unfolding fetch
  try_fetch m =
      if m.queue.size == 0
      then record m { not_empty = fall_asleep m.not_empty }
      else record m { queue = fetch m.queue; not_full = signal m.not_full }

  -- A thread takes the mutex: it calls `BlockEnqueue` or `BlockDequeue`, or goes on in one after it
  -- was woken. `Enqueue` and `Dequeue` are the same where they succeed, and change nothing else.
  pub data Step (m : Monitor A) : Monitor A → Type 0 where
    block_enqueue : (v : A) → Step m (try_store v m)
    enqueue_again :
        (v : A)
        → 0 < m.not_full.woken
        → Step m (try_store v (record m { not_full = resume m.not_full }))
    block_dequeue : Step m (try_fetch m)
    dequeue_again :
        0 < m.not_empty.woken → Step m (try_fetch (record m { not_empty = resume m.not_empty }))
    enqueue : (v : A) → m.queue.size ≢ m.queue.capacity → Step m (try_store v m)
    dequeue : m.queue.size ≢ 0 → Step m (try_fetch m)

  pub data Reach (m : Monitor A) : Monitor A → Type 0 where
    here : Reach m m
    next : {n k : Monitor A} → Reach m n → Step n k → Reach m k

  unfoldable pub new_monitor : ℕ → Monitor A
  new_monitor cap = record {
    queue = new_safe_ring_queue cap;
    not_full = record { asleep = 0; woken = 0 };
    not_empty = record { asleep = 0; woken = 0 };
  }

  -- No wake-up is lost: while a consumer sleeps, a woken one is there for each value; while a producer
  -- sleeps, a woken one is there for each free place.
  pub record IsAwake (m : Monitor A) : Type 0 where
    pub bounded : m.queue.size ≤ m.queue.capacity
    pub consumers : (m.not_empty.asleep ≡ 0) ⊎ (m.queue.size ≤ m.not_empty.woken)
    pub producers : (m.not_full.asleep ≡ 0) ⊎ (m.queue.capacity - m.queue.size ≤ m.not_full.woken)

  try_store-IsAwake : (v : A) (m : Monitor A) → IsAwake m → IsAwake (try_store v m)
  unfolding try_store
  try_store-IsAwake v m a = ground arith

  store_again-IsAwake :
      (v : A) (m : Monitor A)
      → 0 < m.not_full.woken
      → IsAwake m
      → IsAwake (try_store v (record m { not_full = resume m.not_full }))
  unfolding try_store
  store_again-IsAwake v m w a = ground arith

  try_fetch-IsAwake : (m : Monitor A) → IsAwake m → IsAwake (try_fetch m)
  unfolding try_fetch
  try_fetch-IsAwake m a = ground arith

  fetch_again-IsAwake :
      (m : Monitor A)
      → 0 < m.not_empty.woken
      → IsAwake m
      → IsAwake (try_fetch (record m { not_empty = resume m.not_empty }))
  unfolding try_fetch
  fetch_again-IsAwake m w a = ground arith

  Step-IsAwake : {m n : Monitor A} → Step m n → IsAwake m → IsAwake n
  Step-IsAwake {m} (block_enqueue v) a = try_store-IsAwake v m a
  Step-IsAwake {m} (enqueue_again v w) a = store_again-IsAwake v m w a
  Step-IsAwake {m} block_dequeue a = try_fetch-IsAwake m a
  Step-IsAwake {m} (dequeue_again w) a = fetch_again-IsAwake m w a
  Step-IsAwake {m} (enqueue v f) a = try_store-IsAwake v m a
  Step-IsAwake {m} (dequeue f) a = try_fetch-IsAwake m a

  Reach-IsAwake : {m n : Monitor A} → Reach m n → IsAwake m → IsAwake n
  Reach-IsAwake here a = a
  Reach-IsAwake (next r s) a = Step-IsAwake s (Reach-IsAwake r a)

  -- In every state that any number of threads can bring a new queue to, by calls and wake-ups in any
  -- order: while a consumer sleeps there is a woken consumer for each value in the queue, and while
  -- a producer sleeps a woken producer for each free place.
  pub no_lost_wakeup : (cap : ℕ) {m : Monitor A} → Reach (new_monitor cap) m → IsAwake m
  unfolding new_monitor new_safe_ring_queue
  no_lost_wakeup cap r = Reach-IsAwake r (ground arith)
