-- ===== src/Kafka/Retry/Tests.antt =====
-- Runs and delays of kafka/retry.go at concrete numbers.
use common_tools.Prelude.{
  ℕ, ◌-◌, ◌*◌, ◌^◌, ◌≡◌, refl, min, arith, none, some, [], ◌∷◌, ltb, if◌then◌else◌,
}
use common_tools.Prelude.Int.{pos}
use common_tools.Kafka.Retry.{World, run, retry_delay, retry_delay_with_base}
use common_tools.Kafka.Retry.Delay.{retry_delay_with_base_lem}
use common_tools.Kafka.Retry.Calls.{Ends, run-Ends}

-- The third attempt is the first to succeed, and the context stays alive.
abbrev third_time : World ℕ
third_time = record {
  ctx_err = λ n. none;
  fn = λ n. if ltb n 3 then some n else none;
  delay = λ n. pos 1;
  cancelled = λ n. none;
}

-- As before, but the context ends in the wait after the second attempt.
abbrev cancelled_late : World ℕ
cancelled_late = record third_time { cancelled = λ n. if ltb n 2 then none else some 99 }

succeeds : run third_time (pos 5) ≡ (none, 1 ∷ 2 ∷ 3 ∷ [])
unfolding run
succeeds = refl

exhausted : run third_time (pos 2) ≡ (some 2, 1 ∷ 2 ∷ [])
unfolding run
exhausted = refl

stopped : run cancelled_late (pos 5) ≡ (some 99, 1 ∷ 2 ∷ [])
unfolding run
stopped = refl

capped : retry_delay (pos 6) ≡ pos 30_000_000_000
unfolding retry_delay
capped = refl

run-Ends_example : Ends cancelled_late 1 5 (run cancelled_late (pos 5))
run-Ends_example = run-Ends cancelled_late (pos 5)

retry_delay_with_base_lem_example :
    retry_delay_with_base (pos 4) (pos 1_000_000_000) (pos 30_000_000_000)
    ≡ pos (min (1_000_000_000 * 2 ^ (4 - 1)) 30_000_000_000)
retry_delay_with_base_lem_example =
    retry_delay_with_base_lem 4 1_000_000_000 30_000_000_000 (omega arith) (omega arith)
      (omega arith) (omega arith)
