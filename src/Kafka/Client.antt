-- ===== src/Kafka/Client.antt =====
-- kafka/v2/consumer.go: the state that the claims, the workers and the commit job of a consumer share.
-- An item is a pointer, here its place in `items`, which queues, channels and workers hold. A claim of a
-- partition is one thread: it takes a message or a batch, sends it to the workers and puts it in its
-- partition's queue (a batch in the other order), and blocks where there is no room, which is a
-- step that changes nothing. Sending waits for room in the channel in the source, which only makes
-- fewer orders of steps possible.
pub mod Front
pub mod Steps
pub mod Line
pub mod Keep
pub mod Finish
pub mod Commit
pub mod Safety
mod Tests
use common_tools.Prelude.{
  ℕ, zero, suc, ◌+◌, ◌-◌, Bool, true, false, Option, none, some, List, [], ◌∷◌, ◌++◌, String,
  length, get_elem?, set, ◌==◌, if◌then◌else◌, str_eq,
}
use common_tools.Prelude.Run.{Run, ok, panic, out_of_fuel, ◌>>=◌}
use common_tools.Basic.RingQueue.{
  SafeRingQueue, Reply, ok as replied, full, empty, panic as reply_panic, new_safe_ring_queue,
  enqueue, dequeue, peek,
}
use common_tools.Kafka.Consumer.{
  Config, ConsumeState, Item, msg_item, batch_item, completed_queue_item, Context, Called, Verdict,
  completed, later, left, process_message, settle, process_batch,
}

-- `msgQueue`, `consumerSession` (only whether there is one) and the messages that were marked and
-- committed with the key of their queue, the last one first. `pending` is the item that a partition's
-- claim has taken and not queued yet, `busy` are those that workers are at, and
-- `timers` those that wait for a retry.
pub record Client (M : Type 0) : Type 0 where
  pub items : List (Item M)
  pub chan : List (String × ℕ)
  pub busy : List ℕ
  pub timers : List ℕ
  pub queues : String → Option (SafeRingQueue ℕ)
  pub pending : String → Option ℕ
  pub session : Bool
  pub marks : List (String × M)

-- What a call of `processMessage` or `processBatch` meets.
pub record Work (E M : Type 0) : Type 0 where
  pub running : Bool
  pub ctx : Context E
  pub ended : Option E
  pub dead_ctx : Context E
  pub called : M → Called E
  pub batch_called : List M → ℕ → Option E
  pub dead : Option (M → E → ℕ → Option E)
  pub batch_dead : Option (List M → E → ℕ → Option E)

-- A write to a `sync.Map`.
abbrev pub set_key {ℓ} : {A : Type ℓ} → String → A → (String → A) → String → A
set_key k v f j = if str_eq k j then v else f j

-- The first number in the list goes.
abbrev pub remove_one : ℕ → List ℕ → List ℕ
remove_one i [] = []
remove_one i (j ∷ js) = if j == i then js else j ∷ remove_one i js

abbrev pub has : ℕ → List ℕ → Bool
has i [] = false
has i (j ∷ js) = if j == i then true else has i js

-- The first entry of a channel.
pull : String → List (String × ℕ) → Option (ℕ × List (String × ℕ))
pull k [] = none
pull k ((j, i) ∷ rest) =
    let more = pull k rest in
    if str_eq j k
    then some (i, rest)
    else elim more [ none ↦ none | some (n, others) ↦ some (n, (j, i) ∷ others) ]

module _ {M : Type 0} where
  abbrev pub new_client : Client M
  new_client = record {
    items = [];
    chan = [];
    busy = [];
    timers = [];
    queues = λ k. none;
    pending = λ k. none;
    session = false;
    marks = [];
  }

  -- `ConsumeClaim` and `consumeClaimBatch` up to the queue: there is one channel for messages, and one
  -- for the batches of each key.
  unfoldable pub receive : Bool → String → Item M → Client M → Client M
  receive batch_mode k item s = elim (s.pending k) [
    | some _ ↦ s
    | none ↦ record s {
      items = s.items ++ item ∷ [];
      chan = if batch_mode then s.chan else s.chan ++ ("", length s.items) ∷ [];
      pending = set_key k (some (length s.items)) s.pending;
    }
  ]

  -- `getQueue`
  abbrev pub get_queue : ℕ → String → Client M → SafeRingQueue ℕ
  get_queue capacity k s = elim (s.queues k) [ some q ↦ q | none ↦ new_safe_ring_queue capacity ]

  -- `BlockEnqueue`, and the sending of a batch to its worker.
  unfoldable pub admit : Bool → ℕ → String → Client M → Client M
  admit batch_mode capacity k s = elim (s.pending k) [
    | none ↦ s
    | some i ↦
        let (q, reply) = enqueue i (get_queue capacity k s) in
        elim reply [
          | replied _ ↦ record s {
            queues = set_key k (some q) s.queues;
            pending = set_key k none s.pending;
            chan = if batch_mode then s.chan ++ (k, i) ∷ [] else s.chan;
          }
          | _ ↦ record s { queues = set_key k (some q) s.queues }
        ]
  ]

  -- A worker receives from the channel.
  unfoldable pub start : String → Client M → Client M
  unfolding pull
  start k s = elim (pull k s.chan) [
    | none ↦ s
    | some (i, rest) ↦ record s { chan = rest; busy = i ∷ s.busy }
  ]

  -- The end of the worker's round: of `consume` for a message, of `consumeBatch` for a batch.
  unfoldable pub finish : {E : Type 0} → Config → Work E M → ℕ → Client M → Client M
  finish c w i s =
      if has i s.busy
      then elim (get_elem? s.items i) [
        | none ↦ s
        | some (msg_item state m) ↦
            let r = process_message c w.running w.ctx w.dead m (w.called m) state in
            record s {
              items = set s.items i (msg_item (settle r) m);
              busy = remove_one i s.busy;
              timers = elim r.1 [ later ↦ i ∷ s.timers | completed ↦ s.timers | left ↦ s.timers ];
            }
        | some (batch_item state ms values) ↦
            let after =
              process_batch c w.ctx w.ended w.dead_ctx w.batch_called w.batch_dead values state in
            record s {
              items = set s.items i (batch_item after ms values);
              busy = remove_one i s.busy;
            }
      ]
      else s

  -- A worker that has received an item finds the client stopped and returns.
  abbrev pub quit : ℕ → Client M → Client M
  quit i s = record s { busy = remove_one i s.busy }

  -- The end of a retry's wait: the item goes to the channel again, or, if the client's context has
  -- ended, nowhere.
  unfoldable pub fire : Bool → ℕ → Client M → Client M
  fire ended i s =
      if has i s.timers
      then record s {
        timers = remove_one i s.timers;
        chan = if ended then s.chan else s.chan ++ ("", i) ∷ [];
      }
      else s

  -- The items that a queue's slot points to.
  pub at_pointer : List (Item M) → Option ℕ → Option (Item M)
  at_pointer items none = none
  at_pointer items (some i) = get_elem? items i

  -- The loop of `commitCompletedOffsets` over one queue.
  pub commit_loop :
      ℕ → List (Item M) → SafeRingQueue ℕ → Option M → Run (SafeRingQueue ℕ × Option M)
  unfolding at_pointer
  commit_loop zero items q last = out_of_fuel
  commit_loop (suc k) items q last = elim (peek q) [
    | replied slot ↦ elim (completed_queue_item (at_pointer items slot)) [
      | none ↦ ok (q, last)
      | some m ↦ commit_loop k items (dequeue q).0 (some m)
    ]
    | full ↦ ok (q, last)
    | empty ↦ ok (q, last)
    | reply_panic ↦ panic
  ]

  -- What the loop leaves, and the mark of the last message it took, if there is a session.
  abbrev pub store_commit : String → Client M → SafeRingQueue ℕ × Option M → Client M
  store_commit k s out = record s {
    queues = set_key k (some out.0) s.queues;
    marks = elim out.1 [
      | none ↦ s.marks
      | some m ↦ if s.session then (k, m) ∷ s.marks else s.marks
    ];
  }

  -- Its body for one key.
  unfoldable pub commit : String → Client M → Run (Client M)
  unfolding commit_loop
  commit k s = elim (s.queues k) [
    | none ↦ ok s
    | some q ↦ do out ← commit_loop (suc q.size) s.items q none; ok (store_commit k s out)
  ]

  -- `commitCompletedOffsets`, with the keys of the queues in the order of `Range`.
  unfoldable pub commit_completed_offsets : List String → Client M → Run (Client M)
  commit_completed_offsets [] s = ok s
  commit_completed_offsets (k ∷ ks) s = do r ← commit k s; commit_completed_offsets ks r

  pub delete_queues : List String → Client M → Client M
  delete_queues [] s = s
  delete_queues (k ∷ ks) s =
      delete_queues ks
        (record s { queues = set_key k none s.queues; pending = set_key k none s.pending })

  -- `Cleanup`, for the keys of all queues and those of the session's claims, whose threads have returned.
  unfoldable pub cleanup : List String → List String → Client M → Run (Client M)
  unfolding delete_queues
  cleanup queued claims s = do
    r ← commit_completed_offsets queued s
    ok (record (delete_queues claims r) { session = false })

  -- A claim of a new session.
  abbrev pub open_session : Client M → Client M
  open_session s = record s { session = true }
