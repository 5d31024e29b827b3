-- ===== src/Basic/RingQueue.antt =====
-- pkg/basic/safe_ring_queue.go: a bounded queue in a ring. Each method holds the mutex throughout, so
-- it is one step. A slot holds `none` where the source stores nil; a value itself may be anything.
pub mod Fifo
pub mod Monitor
mod Tests
use common_tools.Prelude.{
  ℕ, zero, ◌+◌, ◌-◌, ◌%◌, Option, none, some, List, get_elem?, set, replicate, ◌==◌, if◌then◌else◌,
}

pub record SafeRingQueue (A : Type 0) : Type 0 where
  pub slots : List (Option A)
  pub capacity : ℕ
  pub head : ℕ
  pub tail : ℕ
  pub size : ℕ

-- What a method returns: a value, or one of its two errors. A read outside the slice panics.
pub data Reply (A : Type 0) : Type 0 where
  ok : A → Reply A
  full empty panic : Reply A

module _ {A : Type 0} where
  unfoldable pub new_safe_ring_queue : ℕ → SafeRingQueue A
  new_safe_ring_queue cap = record {
    slots = replicate cap none;
    capacity = cap;
    head = 0;
    tail = 0;
    size = 0;
  }

  -- The part of `Enqueue` and `BlockEnqueue` behind the test for room.
  pub store : A → SafeRingQueue A → SafeRingQueue A
  store v q = record q {
    slots = set q.slots q.tail (some v);
    tail = (q.tail + 1) % q.capacity;
    size = q.size + 1;
  }

  -- The part of `Dequeue` and `BlockDequeue` behind the test for a value.
  pub fetch : SafeRingQueue A → SafeRingQueue A
  fetch q = record q {
    slots = set q.slots q.head none;
    head = (q.head + 1) % q.capacity;
    size = q.size - 1;
  }

  -- `data[head]`
  pub at_head : SafeRingQueue A → Reply (Option A)
  at_head q = elim (get_elem? q.slots q.head) [ none ↦ panic | some slot ↦ ok slot ]

  unfoldable pub enqueue : A → SafeRingQueue A → SafeRingQueue A × Reply (Unit {0})
  unfolding store
  enqueue v q = if q.size == q.capacity then (q, full) else (store v q, ok tt)

  unfoldable pub dequeue : SafeRingQueue A → SafeRingQueue A × Reply (Option A)
  unfolding fetch at_head
  dequeue q = if q.size == 0 then (q, empty) else (fetch q, at_head q)

  unfoldable pub peek : SafeRingQueue A → Reply (Option A)
  unfolding at_head
  peek q = if q.size == 0 then empty else at_head q
