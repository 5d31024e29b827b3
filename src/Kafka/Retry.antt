-- ===== src/Kafka/Retry.antt =====
-- kafka/retry.go: the bounded retry loop and its exponential delays, in nanoseconds.
pub mod Delay
pub mod Calls
mod Tests
use common_tools.Prelude.{
  ℕ, zero, suc, ◌+◌, ◌-◌, Bool, true, false, ◌&&◌, Option, none, some, List, [], ◌∷◌, ltb, ◌==◌,
  if◌then◌else◌,
}
use common_tools.Prelude.Int.{ℤ, pos, negsuc, ltb_ℤ, leb_ℤ, double64}

-- The loop of `RetryDelayWithBase`, by the rounds left.
double_loop : ℕ → ℤ → ℤ → ℤ
double_loop zero max delay = delay
double_loop (suc k) max delay =
    let more = double_loop k max (double64 delay) in if ltb_ℤ delay max then more else delay

-- An attempt below 1 counts as the first.
abbrev pub at_least_one : ℤ → ℕ
at_least_one (pos zero) = 1
at_least_one (pos (suc n)) = suc n
at_least_one (negsuc _) = 1

unfoldable pub retry_delay_with_base : ℤ → ℤ → ℤ → ℤ
unfolding double_loop
retry_delay_with_base attempt base max =
    let delay = double_loop (at_least_one attempt - 1) max base in
    if leb_ℤ base (pos 0)
    then pos 0
    else if ltb_ℤ (pos 0) max && ltb_ℤ max delay
    then max
    else delay

unfoldable pub retry_delay : ℤ → ℤ
unfolding retry_delay_with_base
retry_delay attempt = retry_delay_with_base attempt (pos 1_000_000_000) (pos 30_000_000_000)

-- What a run meets: the context's error before an attempt, what an attempt returns, the delay after it
-- (zero where the policy has no `Delay`), and the context's error if it ends first.
pub record World (E : Type 0) : Type 0 where
  pub ctx_err : ℕ → Option E
  pub fn : ℕ → Option E
  pub delay : ℕ → ℤ
  pub cancelled : ℕ → Option E

module _ {E : Type 0} (w : World E) where
  -- The wait after a failed attempt: whether the run goes on.
  wait : ℕ → Option E
  wait attempt = if leb_ℤ (w.delay attempt) (pos 0) then none else w.cancelled attempt

  -- The loop of `Run` with `left` attempts left, after the error `last`: the error that it returns, if
  -- any, and the attempts that it called `fn` with.
  run_loop : ℕ → ℕ → Option E → Option E × List ℕ
  run_loop zero attempt last = (last, [])
  run_loop (suc left) attempt last =
      let rest = run_loop left (attempt + 1) (w.fn attempt) in
      elim (w.ctx_err attempt) [
        | some e ↦ (some e, [])
        | none ↦ elim (w.fn attempt) [
          | none ↦ (none, attempt ∷ [])
          | some e ↦ if left == 0 then (some e, attempt ∷ []) else elim (wait attempt) [
            | some c ↦ (some c, attempt ∷ [])
            | none ↦ (rest.0, attempt ∷ rest.1)
          ]
        ]
      ]

  -- `Run`, with `MaxAttempts` raised to 1.
  unfoldable pub run : ℤ → Option E × List ℕ
  unfolding run_loop wait
  run max_attempts = run_loop (at_least_one max_attempts) 1 none
