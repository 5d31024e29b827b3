-- ===== src/Basic/DelayQueue.antt =====
-- pkg/basic/delay_queue.go: values with the time, in nanoseconds since 1970, from which they may be taken.
-- A method holds the spin lock for the part that is one step here. `Reset(d)` sets the timer to fire `d` after the
-- time of the call, which comes after `getDelay` has read the clock, by `lag`; since Go 1.23 it also takes back a tick that
-- nobody has received.
pub mod Decimal
pub mod Timer
pub mod Take
pub mod Reach
mod Tests
use common_tools.Prelude.{
  ℕ, zero, suc, ◌+◌, ◌-◌, ◌*◌, ◌/◌, ◌%◌, Bool, true, false, List, [], ◌∷◌, ◌++◌, Option, none, some,
  ltb, leb, if◌then◌else◌,
}
use common_tools.Prelude.Run.{Run, ok, panic, out_of_fuel, ◌>>=◌}
use common_tools.Basic.PriorityQueue.{ObjectPriorityQueue, str_equal, offer, poll, peek}

-- `fmt.Sprintf("%d", n)`: a number below 10^20 takes at most twenty digits.
decimal_loop : ℕ → ℕ → List ℕ
decimal_loop zero n = []
decimal_loop (suc k) n =
    let front = decimal_loop k (n / 10) in
    if ltb n 10 then (48 + n) ∷ [] else front ++ (48 + n % 10) ∷ []

unfoldable pub decimal : ℕ → List ℕ
unfolding decimal_loop
decimal n = decimal_loop 20 n

pub record DelayItem (V : Type 0) : Type 0 where
  pub priority : ℕ
  pub value : V

-- The timer is set to fire at a time, or has sent its tick, or the tick has been received.
pub data TimerState : Type 0 where
  armed : ℕ → TimerState
  fired spent : TimerState

pub record DelayQueue (V : Type 0) : Type 0 where
  pub heap : ObjectPriorityQueue (DelayItem V)
  pub timer : TimerState

module _ {V : Type 0} where
  -- `delayItem.String`
  unfoldable pub item_string : DelayItem V → List ℕ
  item_string x = decimal x.priority

  -- `NewDelayQueue`
  abbrev pub new_delay_queue : ℕ → DelayQueue V
  new_delay_queue now = record {
    heap = record { arr = []; cap = 0; size = 0; max_first = false };
    timer = armed (now + 30_000_000_000);
  }

  -- `Add`: a first item that is the new one sets the timer.
  unfoldable pub add : (ℕ → ℕ) → ℕ → DelayItem V → DelayQueue V → Run (DelayQueue V)
  add grow lag item dq = do
    heap ← offer item_string grow item dq.heap
    first ← peek item_string heap
    ok (record {
      heap = heap;
      timer = elim first [
        | none ↦ dq.timer
        | some f ↦
            if str_equal (item_string f) (item_string item)
            then armed (f.priority + lag)
            else dq.timer
      ];
    })

  -- The locked part of `TakeWithStop`: an item is taken one microsecond early at most; otherwise the
  -- timer is set to the first item, or to half a minute.
  unfoldable pub take_step : ℕ → ℕ → DelayQueue V → Run (DelayQueue V × Option V)
  take_step now lag dq = peek item_string dq.heap >>= λ first. elim first [
    | none ↦ ok (record dq { timer = armed (now + lag + 30_000_000_000) }, none)
    | some f ↦
        if leb f.priority (now + 1_000)
        then (poll item_string dq.heap >>= λ r. ok (
          record { heap = r.0; timer = armed (f.priority + lag) },
          elim r.1 [ none ↦ none | some x ↦ some x.value ],
        ))
        else ok (record dq { timer = armed (f.priority + lag) }, none)
  ]

-- The queue, and the callers of `TakeWithStop`: at the head of its loop, or in the select.
pub record Takers (V : Type 0) : Type 0 where
  pub queue : DelayQueue V
  pub trying : ℕ
  pub waiting : ℕ

module _ {V : Type 0} where
  -- After the locked part a caller that has an item returns; another one waits.
  abbrev pub after_try : DelayQueue V × Option V → ℕ → ℕ → Takers V
  after_try (dq, some v) trying waiting = record { queue = dq; trying = trying; waiting = waiting }
  after_try (dq, none) trying waiting = record {
    queue = dq;
    trying = trying;
    waiting = waiting + 1;
  }

  -- One pass of the loop, from its head to the select.
  unfoldable pub try_take : ℕ → ℕ → Takers V → Run (Takers V × Option V)
  unfolding take_step
  try_take now lag s = elim s.trying [
    | zero ↦ panic
    | suc n ↦ take_step now lag s.queue >>= λ r. ok (after_try r n s.waiting, r.1)
  ]

  -- The timer fires; its tick is received by a caller in the select, who goes round the loop again; or a
  -- caller there is stopped.
  unfoldable pub send_tick : ℕ → Takers V → Takers V
  send_tick now s = elim s.queue.timer [
    | armed t ↦ if leb t now then record s { queue = record s.queue { timer = fired } } else s
    | _ ↦ s
  ]

  unfoldable pub receive_tick : Takers V → Takers V
  receive_tick s = elim s.waiting [
    | zero ↦ s
    | suc n ↦ elim s.queue.timer [
      | fired ↦ record {
        queue = record s.queue { timer = spent };
        trying = s.trying + 1;
        waiting = n;
      }
      | _ ↦ s
    ]
  ]

  unfoldable pub stop_one : Takers V → Takers V
  stop_one s = record s { waiting = s.waiting - 1 }
