-- ===== src/Kafka/Client/Tests.antt =====
-- Two messages of one partition, of which the first is dealt with.
use common_tools.Prelude.{ℕ, ◌≡◌, refl, inl, inr, arith, true, false, none, List, [], ◌∷◌}
use common_tools.Prelude.Int.{pos}
use common_tools.Prelude.Run.{ok, Returns, ◌>>=◌}
use common_tools.Basic.RingQueue.{new_safe_ring_queue, enqueue, dequeue, peek}
use common_tools.Basic.RingQueue.Fifo.{Holds, new-Holds, enqueue_refines}
use common_tools.Kafka.Consumer.{
  Config, Item, msg_item, fresh, mark_done, returned, process_message, settle, completed_queue_item,
}
use common_tools.Kafka.Client.{
  Client, Work, new_client, receive, admit, start, finish, commit, commit_loop, open_session,
}
use common_tools.Kafka.Client.Front.{Popped, commit_loop_lem}
use common_tools.Kafka.Client.Commit.{Covers}
use common_tools.Kafka.Client.Safety.{commit-Covers}
use common_tools.Kafka.Client.Steps.{
  Log, received, worked, Reach, begin, opens, receives, admits, starts, finishes,
}

abbrev config : Config
config = record {
  retry_count = pos 3;
  dead_letter_retry_count = pos 2;
  dead_letter_retry_interval = pos 1_000_000_000;
}

abbrev good_work : Work ℕ ℕ
good_work = record {
  running = true;
  ctx = record { ctx_err = λ n. none; cancelled = λ n. none };
  ended = none;
  dead_ctx = record { ctx_err = λ n. none; cancelled = λ n. none };
  called = λ m. returned none;
  batch_called = λ ms n. none;
  dead = none;
  batch_dead = none;
}

-- Both are queued, one worker takes the first.
abbrev queued : Client ℕ
queued =
    let s : Client ℕ = open_session new_client in
    let s1 = admit false 4 "t-0" (receive false "t-0" (msg_item fresh 70) s) in
    start "" (admit false 4 "t-0" (receive false "t-0" (msg_item fresh 71) s1))

abbrev worked_once : Client ℕ
worked_once = finish config good_work 0 queued

first_committed : (commit "t-0" worked_once >>= λ r. ok r.marks) ≡ ok (("t-0", 70) ∷ [])
unfolding commit finish start admit receive enqueue new_safe_ring_queue process_message settle
    completed_queue_item dequeue peek
first_committed = refl

abbrev history : List (Log ℕ ℕ)
history = worked 0 good_work ∷ received "t-0" 1 ∷ received "t-0" 0 ∷ []

reached : Reach config false 4 history worked_once
unfolding start admit receive enqueue new_safe_ring_queue
reached =
    finishes 0 good_work
      (starts "" (
        admits "t-0" (
          receives "t-0" (msg_item fresh 71)
            (admits "t-0" (receives "t-0" (msg_item fresh 70) (opens begin) refl refl)) refl refl)))
      refl

commit-Covers_example : Returns (Covers config history "t-0" worked_once) (commit "t-0" worked_once)
commit-Covers_example = commit-Covers config false 4 "t-0" reached

-- A queue of one item that is marked.
abbrev one_done : List (Item ℕ)
one_done = msg_item (mark_done fresh) 70 ∷ []

one_Holds : Holds {A = ℕ} (enqueue 0 (new_safe_ring_queue 4)).0 (0 ∷ [])
unfolding enqueue new_safe_ring_queue
one_Holds = elim (enqueue_refines {A = ℕ} 0 (new-Holds 4)) [
  | inl (full_now, _) ↦ absurd (omega (arith, full_now))
  | inr (_, _, holds) ↦ holds
]

commit_loop_lem_example :
    Returns
      (Popped one_done (0 ∷ []) none)
      (commit_loop 2 one_done (enqueue 0 (new_safe_ring_queue 4)).0 none)
commit_loop_lem_example =
    commit_loop_lem one_done 2 (0 ∷ []) (enqueue 0 (new_safe_ring_queue 4)).0 none one_Holds
      (omega arith)
