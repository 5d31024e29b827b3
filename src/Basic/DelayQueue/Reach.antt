-- ===== src/Basic/DelayQueue/Reach.antt =====
-- What any number of threads can do to a delay queue.
use common_tools.Prelude.{
  ℕ, zero, suc, ◌+◌, ◌≤◌, ◌<◌, ◌≡◌, ◌≢◌, refl, sym, subst, Bool, true, leb, Option, ap,
  if◌then◌else◌, false, none, some, arith, ◌∙◌,
}
use common_tools.Prelude.Run.{Run, ok, panic, ◌>>=◌}
use common_tools.Basic.DelayQueue.{
  DelayItem, DelayQueue, TimerState, armed, fired, spent, Takers, new_delay_queue, add, take_step,
  try_take, after_try, send_tick, receive_tick, stop_one,
}
use common_tools.Basic.DelayQueue.Timer.{dated, IsArmed, add_arms}
use common_tools.Basic.DelayQueue.Take.{Tried, take_step_takes}

module _ {V : Type 0} (grow : ℕ → ℕ) (slack : ℕ) where
  -- A thread adds an item; a caller enters `TakeWithStop`, tries to take an item, and waits in the select, where the
  -- timer's tick wakes it or it is stopped. A timer is set at most `slack` after the clock was read.
  pub data Step (s : Takers V) : Takers V → Type 0 where
    adds :
        (lag : ℕ) (item : DelayItem V) (r : DelayQueue V)
        → lag ≤ slack
        → dated item.priority ≡ true
        → add grow lag item s.queue ≡ ok r
        → Step s (record s { queue = r })
    enters : Step s (record s { trying = s.trying + 1 })
    tries :
        (now lag : ℕ) (r : Takers V) (v : Option V)
        → lag ≤ slack
        → try_take now lag s ≡ ok (r, v)
        → Step s r
    fires : (now : ℕ) → Step s (send_tick now s)
    wakes : Step s (receive_tick s)
    stops : Step s (stop_one s)

  pub data Reach (s : Takers V) : Takers V → Type 0 where
    begin : Reach s s
    next : {r t : Takers V} → Reach s r → Step r t → Reach s t

  abbrev pub nobody : ℕ → Takers V
  nobody now = record { queue = new_delay_queue now; trying = 0; waiting = 0 }

  module _ (z : DelayItem V) (more : (c : ℕ) → c < grow c) where
    -- The queue is in order, with the timer, if it is set, in time for every item; and when the tick has been
    -- received and the timer not set again, a caller is about to try.
    pub record IsAwake (s : Takers V) : Type 0 where
      pub is_armed : IsArmed slack z s.queue
      pub awake : s.queue.timer ≡ spent → 0 < s.trying

    new-IsAwake : (now : ℕ) → IsAwake (nobody now)
    new-IsAwake now = record {
      is_armed = record {
        queue = record {
          counted = refl;
          fits = omega arith;
          heap = λ c pc hc. absurd (omega arith);
        };
        earliest = refl;
        all_dated = refl;
        in_time = λ t e. refl;
      };
      awake = λ e. absurd (ground (arith, e));
    }

    -- A timer that has fired has no time to keep.
    unset-IsArmed :
        (dq : DelayQueue V) (state : TimerState)
        → ((t : ℕ) → state ≢ armed t)
        → IsArmed slack z dq
        → IsArmed slack z (record dq { timer = state })
    unset-IsArmed dq state unset a = record {
      queue = a.queue;
      earliest = a.earliest;
      all_dated = a.all_dated;
      in_time = λ t e. absurd (unset t e);
    }

    after_try-IsAwake :
        (dq : DelayQueue V) (r : DelayQueue V × Option V) (now lag n waiting : ℕ)
        → Tried slack z now lag dq r
        → IsAwake (after_try r n waiting)
    after_try-IsAwake dq (q, some v) now lag n waiting t = record {
      is_armed = t.is_armed;
      awake = λ e. absurd (ground (arith, e, t.set.1));
    }
    after_try-IsAwake dq (q, none) now lag n waiting t = record {
      is_armed = t.is_armed;
      awake = λ e. absurd (ground (arith, e, t.set.1));
    }

    -- The pass of a caller at the head of the loop.
    pass-IsAwake :
        (now lag waiting : ℕ) (dq : DelayQueue V) (trying : ℕ)
        → lag ≤ slack
        → IsArmed slack z dq
        → (r : Takers V) (v : Option V)
        → ◌≡◌ {A = Run (Takers V × Option V)}
            (elim trying [
              | zero ↦ panic
              | suc n ↦ take_step now lag dq >>= λ q. ok (after_try q n waiting, q.1)
            ])
            (ok (r, v))
        → IsAwake r
    pass-IsAwake now lag waiting dq zero soon a r v e = absurd (ground (arith, e))
    pass-IsAwake now lag waiting dq (suc n) soon a r v e =
        let (q, f, t) = take_step_takes slack z now lag dq soon a in
        let rest : DelayQueue V × Option V → Run (Takers V × Option V) =
          λ q. ok (after_try q n waiting, q.1) in
        let both : rest q ≡ ok (r, v) = sym (ap (λ x. x >>= rest) f) ∙ e in
        let same : after_try q n waiting ≡ r = cc in
        subst IsAwake same (after_try-IsAwake dq q now lag n waiting t)

    fires_if :
        (s : Takers V) (b : Bool)
        → IsAwake s
        → IsAwake (if b then record s { queue = record s.queue { timer = fired } } else s)
    fires_if s true a = record {
      is_armed = unset-IsArmed s.queue fired (λ t e. ground (arith, e)) a.is_armed;
      awake = λ e. absurd (ground (arith, e));
    }
    fires_if s false a = a

    fires_from :
        (now : ℕ) (s : Takers V)
        → (state : TimerState) → IsAwake s
        → IsAwake (elim state [
          | armed t ↦ if leb t now then record s { queue = record s.queue { timer = fired } } else s
          | _ ↦ s
        ])
    fires_from now s (armed t) a = fires_if s (leb t now) a
    fires_from now s fired a = a
    fires_from now s spent a = a

    wakes_from :
        (s : Takers V) (waiting : ℕ)
        → (state : TimerState) → IsAwake s
        → IsAwake (elim waiting [
          | zero ↦ s
          | suc n ↦ elim state [
            | fired ↦ record {
              queue = record s.queue { timer = spent };
              trying = s.trying + 1;
              waiting = n;
            }
            | _ ↦ s
          ]
        ])
    wakes_from s zero state a = a
    wakes_from s (suc n) (armed t) a = a
    wakes_from s (suc n) fired a = record {
      is_armed = unset-IsArmed s.queue spent (λ t e. ground (arith, e)) a.is_armed;
      awake = λ e. omega arith;
    }
    wakes_from s (suc n) spent a = a

    send_tick-IsAwake : (now : ℕ) (s : Takers V) → IsAwake s → IsAwake (send_tick now s)
    unfolding send_tick
    send_tick-IsAwake now s a = fires_from now s s.queue.timer a

    receive_tick-IsAwake : (s : Takers V) → IsAwake s → IsAwake (receive_tick s)
    unfolding receive_tick
    receive_tick-IsAwake s a = wakes_from s s.waiting s.queue.timer a

    stop_one-IsAwake : (s : Takers V) → IsAwake s → IsAwake (stop_one s)
    unfolding stop_one
    stop_one-IsAwake s a = record { is_armed = a.is_armed; awake = a.awake }

    Step-IsAwake : {s t : Takers V} → Step s t → IsAwake s → IsAwake t
    unfolding try_take
    Step-IsAwake {s} (adds lag item r soon d e) a =
        let (q, f, p) = add_arms slack z grow lag item s.queue more soon d a.is_armed in
        let same : q ≡ r = cc in
        record {
          is_armed = subst (IsArmed slack z) same p.is_armed;
          awake = λ e. a.awake (p.tick (ground (arith, same, e)));
        }
    Step-IsAwake {s} enters a = record { is_armed = a.is_armed; awake = λ e. omega arith }
    Step-IsAwake {s} (tries now lag r v soon e) a =
        pass-IsAwake now lag s.waiting s.queue s.trying soon a.is_armed r v e
    Step-IsAwake {s} (fires now) a = send_tick-IsAwake now s a
    Step-IsAwake {s} wakes a = receive_tick-IsAwake s a
    Step-IsAwake {s} stops a = stop_one-IsAwake s a

    -- Whatever any callers do, in any order and at any times, after a queue was new: items are added at times of 19
    -- digits, callers of `TakeWithStop` enter, try to take, wait, are woken by the timer and are stopped, and every reset of
    -- the timer comes at most `slack` after the clock was read. The queue stays in order; the timer, when it is
    -- set, fires at most `slack` after any item in the queue is due; and when its tick has been received
    -- and it has not been set again, a caller is at the head of the loop, about to try.
    pub never_late : (now : ℕ) {s : Takers V} → Reach (nobody now) s → IsAwake s
    never_late now begin = new-IsAwake now
    never_late now (next r s) = Step-IsAwake s (never_late now r)
