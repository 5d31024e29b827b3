-- ===== src/Kafka/Consumer.antt =====
-- kafka/v2/consumer.go: what a worker does with a message or a batch, and how a batch is collected. The
-- metrics, the logs and the times are left out. A panic of a message's handler, which
-- `OnError` stops, is a result of the call; the other handlers are taken not to panic.
pub mod Account
pub mod Rounds
pub mod Collect
mod Tests
use common_tools.Prelude.{
  ℕ, zero, suc, ◌+◌, ◌-◌, ◌/◌, max, Bool, true, false, Option, none, some, List, [], ◌∷◌, ◌++◌,
  length, if◌then◌else◌, leb,
}
use common_tools.Prelude.Int.{ℤ, pos, negsuc, ltb_ℤ, leb_ℤ, int64}
use common_tools.Prelude.Run.{Run, ok, out_of_fuel}
use common_tools.Kafka.Retry.{World, run, retry_delay, retry_delay_with_base}

pub record Config : Type 0 where
  pub retry_count : ℤ
  pub dead_letter_retry_count : ℤ
  pub dead_letter_retry_interval : ℤ

pub record ConsumeState : Type 0 where
  pub done : Bool
  pub retry_count : ℕ
  pub retry_delay : ℤ

abbrev pub fresh : ConsumeState
fresh = record { done = false; retry_count = 0; retry_delay = pos 0 }

abbrev pub mark_done : ConsumeState → ConsumeState
mark_done s = record s { done = true }

-- The two kinds of queued items; a batch has its messages twice, the second time as its values.
pub data Item (M : Type 0) : Type 0 where
  msg_item : ConsumeState → M → Item M
  batch_item : ConsumeState → List M → List M → Item M

module _ {M : Type 0} where
  abbrev pub is_done : Item M → Bool
  is_done (msg_item s _) = s.done
  is_done (batch_item s _ _) = s.done

  abbrev pub last_of : List M → Option M
  last_of [] = none
  last_of (m ∷ []) = some m
  last_of (m ∷ n ∷ ms) = last_of (n ∷ ms)

  abbrev pub last_message : Item M → Option M
  last_message (msg_item _ m) = some m
  last_message (batch_item _ ms _) = last_of ms

  abbrev pub new_batch_item : List M → Item M
  new_batch_item ms = batch_item fresh ms ms

  -- A nil value is no queued item.
  unfoldable pub completed_queue_item : Option (Item M) → Option M
  completed_queue_item none = none
  completed_queue_item (some item) = if is_done item then last_message item else none

-- What the client's context does during a run: its error before an attempt, and its error if it ends
-- in the wait after one.
pub record Context (E : Type 0) : Type 0 where
  pub ctx_err : ℕ → Option E
  pub cancelled : ℕ → Option E

-- How a call of a message's handler ends.
pub data Called (E : Type 0) : Type 0 where
  returned : Option E → Called E
  panicked : Called E

-- What `processMessage` does: it returns true, it returns false with a retry under way, or it returns
-- false without one.
pub data Verdict : Type 0 where
  completed later left : Verdict

-- A worker of `consume` marks an item that is completed.
unfoldable pub settle : ConsumeState × Verdict → ConsumeState
settle (s, completed) = mark_done s
settle (s, later) = s
settle (s, left) = s

module _ {E : Type 0} where
  abbrev pub dead_letter_world : Config → Context E → (ℕ → Option E) → World E
  dead_letter_world c ctx f = record {
    ctx_err = ctx.ctx_err;
    fn = f;
    delay = λ n. retry_delay_with_base (pos n) c.dead_letter_retry_interval (pos 30_000_000_000);
    cancelled = ctx.cancelled;
  }

  -- `handleDeadLetter` for a message, `handleBatchDeadLetter` for the values of a batch. A
  -- handler returns by the message, the cause and the attempt.
  unfoldable pub handle_dead_letter :
      {X : Type 0} → Config → Context E → Option (X → E → ℕ → Option E) → X → E → Bool
  handle_dead_letter c ctx none x cause = true
  handle_dead_letter c ctx (some f) x cause =
      let result = (run (dead_letter_world c ctx (f x cause)) c.dead_letter_retry_count).0 in
      elim result [ none ↦ true | some _ ↦ false ]

  -- `processMessage`, after the handler's call.
  unfoldable pub process_message :
      {M : Type 0}
      → Config
      → Bool
      → Context E
      → Option (M → E → ℕ → Option E)
      → M
      → Called E
      → ConsumeState
      → ConsumeState × Verdict
  process_message c running ctx dead m panicked s = (s, left)
  process_message c running ctx dead m (returned none) s = (s, completed)
  process_message c running ctx dead m (returned (some e)) s =
      let counted : ConsumeState = record s { retry_count = s.retry_count + 1 } in
      if ltb_ℤ (pos counted.retry_count) c.retry_count
      then if running
        then (record counted { retry_delay = retry_delay (pos counted.retry_count) }, later)
        else (counted, left)
      else if handle_dead_letter c ctx dead m e
      then (counted, completed)
      else (counted, left)

  -- A message's way through the workers: one that waits for a retry comes back on the channel and is
  -- processed again. `running` and `called` are what its calls meet, in turn.
  pub retry_rounds :
      {M : Type 0}
      → Config
      → (ℕ → Bool)
      → (ℕ → Context E)
      → Option (M → E → ℕ → Option E)
      → M
      → (ℕ → Called E)
      → ℕ
      → ℕ
      → ConsumeState
      → Run (ConsumeState × Verdict)
  retry_rounds c running ctx dead m called zero i s = out_of_fuel
  retry_rounds c running ctx dead m called (suc k) i s =
      let r = process_message c (running i) (ctx i) dead m (called i) s in
      elim r.1 [
        | later ↦ retry_rounds c running ctx dead m called k (i + 1) r.0
        | completed ↦ ok (mark_done r.0, completed)
        | left ↦ ok (r.0, left)
      ]

  abbrev pub batch_world : Context E → (ℕ → Option E) → World E
  batch_world ctx f = record {
    ctx_err = ctx.ctx_err;
    fn = f;
    delay = λ n. retry_delay (pos n);
    cancelled = ctx.cancelled;
  }

  -- The attempts that fail leave their number and delay in the item.
  note_failures : (ℕ → Option E) → List ℕ → ConsumeState → ConsumeState
  note_failures f [] s = s
  note_failures f (n ∷ ns) s = elim (f n) [
    | none ↦ note_failures f ns s
    | some _ ↦ note_failures f ns (record s { retry_count = n; retry_delay = retry_delay (pos n) })
  ]

  -- `processBatch`. The context is looked at by the run of the handler, once more after a run that failed, and by the
  -- run of the dead letters' handler.
  unfoldable pub process_batch :
      {M : Type 0}
      → Config
      → Context E
      → Option E
      → Context E
      → (List M → ℕ → Option E)
      → Option (List M → E → ℕ → Option E)
      → List M
      → ConsumeState
      → ConsumeState
  unfolding note_failures
  process_batch c ctx ended dead_ctx handler dead values s =
      let r = run (batch_world ctx (handler values)) c.retry_count in
      let noted = note_failures (handler values) r.1 s in
      elim r.0 [
        | none ↦ mark_done noted
        | some e ↦ elim ended [
          | some _ ↦ noted
          | none ↦ if handle_dead_letter c dead_ctx dead values e then mark_done noted else noted
        ]
      ]

-- `batchQueueCapacity`, with the sum cut at 64 bits and Go's division, which rounds towards 0.
unfoldable pub batch_queue_capacity : ℤ → ℤ → ℕ
batch_queue_capacity (pos (suc n)) (pos (suc m)) = elim (int64 (suc n + suc m - 1)) [
  | pos k ↦ max 1 (k / suc m)
  | negsuc _ ↦ 1
]
batch_queue_capacity _ _ = 1

-- What the select statements of `collectBatch` receive.
pub data Arrival (M : Type 0) : Type 0 where
  message : M → Arrival M
  channel_closed client_done session_done timer_fired : Arrival M

-- The messages of a batch; no batch and the end of the claim; or still waiting.
pub data Collected (M : Type 0) : Type 0 where
  batch : List M → Collected M
  stopped waiting : Collected M

module _ {M : Type 0} where
  -- The loop after the first message, which ends once the batch has its size.
  collect_loop : ℕ → List (Arrival M) → List M → Collected M
  collect_loop size [] ms = if leb size (length ms) then batch ms else waiting
  collect_loop size (message m ∷ rest) ms =
      let more = collect_loop size rest (ms ++ m ∷ []) in
      if leb size (length ms) then batch ms else more
  collect_loop size (channel_closed ∷ _) ms = batch ms
  collect_loop size (timer_fired ∷ _) ms = batch ms
  collect_loop size (client_done ∷ _) ms = if leb size (length ms) then batch ms else stopped
  collect_loop size (session_done ∷ _) ms = if leb size (length ms) then batch ms else stopped

  -- `collectBatch`; there is no timer before the first message.
  unfoldable pub collect_batch : ℕ → ℤ → List (Arrival M) → Collected M
  unfolding collect_loop
  collect_batch size wait [] = waiting
  collect_batch size wait (timer_fired ∷ rest) = collect_batch size wait rest
  collect_batch size wait (client_done ∷ _) = stopped
  collect_batch size wait (session_done ∷ _) = stopped
  collect_batch size wait (channel_closed ∷ _) = stopped
  collect_batch size wait (message m ∷ rest) =
      if leb size 1
      then batch (m ∷ [])
      else if leb_ℤ wait (pos 0)
      then batch (m ∷ [])
      else collect_loop size rest (m ∷ [])
