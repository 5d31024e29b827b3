-- ===== src/Kafka/Consumer/Tests.antt =====
-- Calls of kafka/v2/consumer.go at concrete messages, which are numbers, as are the errors.
use common_tools.Prelude.{
  ℕ, ◌≡◌, ◌↔◌, refl, ap, true, false, Option, none, some, List, [], ◌∷◌, ltb, if◌then◌else◌,
}
use common_tools.Prelude.Int.{pos}
use common_tools.Prelude.Run.{Returns}
use common_tools.Kafka.Retry.{run, retry_delay, retry_delay_with_base}
use common_tools.Kafka.Consumer.{
  Config, ConsumeState, fresh, Context, returned, completed, later, left, handle_dead_letter,
  process_message, process_batch, retry_rounds, batch_queue_capacity, message, timer_fired,
  client_done, batch, stopped, collect_batch,
}
use common_tools.Kafka.Consumer.Account.{
  TakesDeadLetter, handle_dead_letter_iff, Ground, process_message_lem, BatchGround,
  process_batch-done,
}
use common_tools.Kafka.Consumer.Rounds.{IsOver, retry_rounds_end}
use common_tools.Kafka.Consumer.Collect.{IsFront, collect_batch-IsFront}

abbrev config : Config
config = record {
  retry_count = pos 3;
  dead_letter_retry_count = pos 2;
  dead_letter_retry_interval = pos 1_000_000_000;
}

abbrev quiet : Context ℕ
quiet = record { ctx_err = λ n. none; cancelled = λ n. none }

-- The dead letters' handler takes a letter at its second attempt.
abbrev second_time : Option (ℕ → ℕ → ℕ → Option ℕ)
second_time = some (λ m e n. if ltb n 2 then some e else none)

-- It takes none.
abbrev never : Option (ℕ → ℕ → ℕ → Option ℕ)
never = some (λ m e n. some 9)

abbrev third_call : ConsumeState
third_call = record fresh { retry_count = 2 }

fine : (process_message config true quiet never 5 (returned none) fresh).1 ≡ completed
unfolding process_message
fine = refl

first_error : (process_message config true quiet never 5 (returned (some 7)) fresh).1 ≡ later
unfolding process_message
first_error = refl

last_error_taken :
    (process_message config true quiet second_time 5 (returned (some 7)) third_call).1 ≡ completed
unfolding process_message handle_dead_letter run retry_delay_with_base
last_error_taken = refl

last_error_refused :
    (process_message config true quiet never 5 (returned (some 7)) third_call).1 ≡ left
unfolding process_message handle_dead_letter run retry_delay_with_base
last_error_refused = refl

three_in_a_batch :
    collect_batch {M = ℕ} 3 (pos 1) (message 1 ∷ message 2 ∷ message 3 ∷ message 4 ∷ [])
    ≡ batch (1 ∷ 2 ∷ 3 ∷ [])
unfolding collect_batch
three_in_a_batch = refl

timed_out : collect_batch {M = ℕ} 3 (pos 1) (message 1 ∷ timer_fired ∷ []) ≡ batch (1 ∷ [])
unfolding collect_batch
timed_out = refl

closed_client : collect_batch {M = ℕ} 3 (pos 1) (message 1 ∷ client_done ∷ []) ≡ stopped
unfolding collect_batch
closed_client = refl

room_for_five : batch_queue_capacity (pos 500) (pos 100) ≡ 5
unfolding batch_queue_capacity
room_for_five = refl

handle_dead_letter_iff_example :
    (handle_dead_letter config quiet second_time 5 7 ≡ true)
    ↔ TakesDeadLetter config quiet second_time 5 7
handle_dead_letter_iff_example =
    handle_dead_letter_iff config quiet second_time 5 7
      (record { before = λ n. refl; between = λ n. refl })

process_message_lem_example :
    let r = process_message config true quiet second_time 5 (returned (some 7)) third_call in
    Ground config true quiet second_time 5 third_call (returned (some 7)) r.1
    × (r.0.done ≡ false)
    × ((e : ℕ) → returned (some 7) ≡ returned (some e) → r.0.retry_count ≡ 3)
process_message_lem_example =
    process_message_lem config true quiet second_time 5 third_call (returned (some 7))

abbrev batch_takes : Option (List ℕ → ℕ → ℕ → Option ℕ)
batch_takes = some (λ ms e n. none)

abbrev batch_fails : List ℕ → ℕ → Option ℕ
batch_fails ms n = some n

letter_taken :
    process_batch config quiet none quiet batch_fails batch_takes (1 ∷ 2 ∷ []) fresh
    ≡ record { done = true; retry_count = 3; retry_delay = pos 4_000_000_000 }
unfolding process_batch run retry_delay handle_dead_letter
letter_taken = refl

process_batch-done_example : BatchGround config quiet none batch_fails batch_takes (1 ∷ 2 ∷ [])
process_batch-done_example =
    process_batch-done config quiet none quiet batch_fails batch_takes (1 ∷ 2 ∷ []) fresh refl
      (ap (λ s. s.done) letter_taken)

retry_rounds_end_example :
    Returns
      (IsOver config (λ i. true) (λ i. quiet) never 5 (λ i. returned (some 7)))
      (retry_rounds config (λ i. true) (λ i. quiet) never 5 (λ i. returned (some 7)) 3 0 fresh)
retry_rounds_end_example =
    retry_rounds_end config (λ i. true) (λ i. quiet) never 5 (λ i. returned (some 7))

collect_batch-IsFront_example : IsFront {M = ℕ} 3 (1 ∷ 2 ∷ 3 ∷ 4 ∷ []) (1 ∷ 2 ∷ 3 ∷ [])
collect_batch-IsFront_example =
    collect_batch-IsFront 3 (pos 1) (message 1 ∷ message 2 ∷ message 3 ∷ message 4 ∷ [])
      (1 ∷ 2 ∷ 3 ∷ []) three_in_a_batch
