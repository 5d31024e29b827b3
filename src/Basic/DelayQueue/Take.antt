-- ===== src/Basic/DelayQueue/Take.antt =====
-- What a try to take does.
use common_tools.Prelude.{
  List, ℕ, ◌+◌, ◌≡◌, ◌⊎◌, ◌≤◌, ◌<◌, refl, sym, ap, subst, Bool, true, false, Option, none, some,
  get_or, arith, ◌==◌, leb, one, count, count-none, count_mono, ◌∙◌, inl, inr, Bool-cases,
}
use common_tools.Prelude.Run.{ok, Returns, returns, Returns-if, Returns-bind}
use common_tools.Basic.PriorityQueue.{ObjectPriorityQueue}
use common_tools.Basic.PriorityQueue.Poll.{Polled, poll_takes, peek_first, peek-none}
use common_tools.Basic.DelayQueue.{DelayItem, DelayQueue, armed, item_string, take_step}
use common_tools.Basic.DelayQueue.Timer.{before, late, undated, IsArmed, first_least}

module _ {V : Type 0} (slack : ℕ) (z : DelayItem V) where
  -- What a try to take does: either no item is due for a microsecond, and none is taken; or the earliest is,
  -- and is taken. In both cases the timer is set, and fires in time for those that stay.
  pub record Tried (now lag : ℕ) (dq : DelayQueue V) (r : DelayQueue V × Option V) : Type 0 where
    pub is_armed : IsArmed slack z r.0
    pub set : (t : ℕ) × (r.0.timer ≡ armed t)
    pub outcome :
        ((r.1 ≡ none) × (r.0.heap ≡ dq.heap) × (count (before (now + 1_001)) dq.heap.arr ≡ 0))
        ⊎ ((x : DelayItem V) × (r.1 ≡ some x.value)
            × (x.priority ≤ now + 1_000)
            × (count (before x.priority) dq.heap.arr ≡ 0)
            × ((p : DelayItem V → Bool) → count p dq.heap.arr ≡ count p r.0.heap.arr + one (p x)))

  empty-Tried :
      (now lag : ℕ) (dq : DelayQueue V)
      → IsArmed slack z dq
      → dq.heap.size ≡ 0
      → Tried now lag dq (record dq { timer = armed (now + lag + 30_000_000_000) }, none)
  empty-Tried now lag dq a e =
      let nothing = λ (p : DelayItem V → Bool).
        count-none p dq.heap.arr z (λ i hi. absurd (omega (arith, a.queue.counted, e))) in
      record {
        is_armed = record {
          queue = a.queue;
          earliest = a.earliest;
          all_dated = a.all_dated;
          in_time = λ t e. nothing (late slack t);
        };
        set = (now + lag + 30_000_000_000, refl);
        outcome = inl (refl, refl, nothing (before (now + 1_001)));
      }

  -- A timer that is set by the first item.
  in_time_after :
      (lag t : ℕ) (xs : List (DelayItem V)) (first : DelayItem V)
      → lag ≤ slack
      → armed (first.priority + lag) ≡ armed t
      → count (before first.priority) xs ≡ 0
      → count (late slack t) xs ≡ 0
  in_time_after lag t xs first soon e least =
      let at : t ≡ first.priority + lag = ground (arith, e) in
      let fewer =
        count_mono (late {V = V} slack t) (before first.priority) xs
          (λ x e. ground (arith, e, at, soon)) in
      omega (arith, fewer, least)

  waiting-Tried :
      (now lag : ℕ) (dq : DelayQueue V)
      → lag ≤ slack
      → IsArmed slack z dq
      → 0 < dq.heap.size
      → let first = get_or dq.heap.arr 0 z in
        leb first.priority (now + 1_000) ≡ false
        → Tried now lag dq (record dq { timer = armed (first.priority + lag) }, none)
  waiting-Tried now lag dq soon a pos early =
      let first = get_or dq.heap.arr 0 z in
      let least = first_least slack z dq.heap a.queue a.earliest a.all_dated pos in
      let fewer =
        count_mono (before {V = V} (now + 1_001)) (before first.priority) dq.heap.arr
          (λ x e. ground (arith, e, early)) in
      record {
        is_armed = record {
          queue = a.queue;
          earliest = a.earliest;
          all_dated = a.all_dated;
          in_time = λ t e. in_time_after lag t dq.heap.arr first soon e least;
        };
        set = (first.priority + lag, refl);
        outcome = inl (refl, refl, omega (arith, least, fewer));
      }

  Polled-Tried :
      (now lag : ℕ) (dq : DelayQueue V)
      (r : ObjectPriorityQueue (DelayItem V) × Option (DelayItem V))
      → lag ≤ slack
      → IsArmed slack z dq
      → 0 < dq.heap.size
      → let first = get_or dq.heap.arr 0 z in
        leb first.priority (now + 1_000) ≡ true
        → Polled item_string z dq.heap r
        → Tried now lag dq (
          record { heap = r.0; timer = armed (first.priority + lag) },
          elim r.1 [ none ↦ none | some x ↦ some x.value ],
        )
  Polled-Tried now lag dq r soon a pos due p =
      let first = get_or dq.heap.arr 0 z in
      let least = first_least slack z dq.heap a.queue a.earliest a.all_dated pos in
      let shown : ok r.1 ≡ ok (some first) =
        sym p.peeked ∙ peek_first item_string z dq.heap a.queue pos in
      elim p.outcome [
        | inl (e, same) ↦ absurd (omega (arith, e, pos))
        | inr (x, given, one_less, elements, best) ↦
            let is_first : x ≡ first = cc in
            let same_time : x.priority ≡ first.priority =
              ap (λ (y : DelayItem V). y.priority) is_first in
            record {
              is_armed = record {
                queue = p.queue;
                earliest = p.order ∙ a.earliest;
                all_dated = omega (arith, elements undated, a.all_dated);
                in_time = λ t e.
                    in_time_after lag t r.0.arr first soon e
                      (omega (arith, elements (before first.priority), least));
              };
              set = (first.priority + lag, refl);
              outcome = inr (
                x,
                rw given refl,
                ground (arith, due, same_time),
                subst (λ t. count (before t) dq.heap.arr ≡ 0) (sym same_time) least,
                elements,
              );
            }
      ]

  -- A try to take at the time `now`, on a queue in order with times of 19 digits, takes the earliest item if it
  -- is due, up to a microsecond early, and no other; if none is due it takes none. The queue stays
  -- in order, and the timer is set, in time for the items that stay.
  pub take_step_takes :
      (now lag : ℕ) (dq : DelayQueue V)
      → lag ≤ slack
      → IsArmed slack z dq
      → Returns (Tried now lag dq) (take_step now lag dq)
  unfolding take_step
  take_step_takes now lag dq soon a = elim (Bool-cases (dq.heap.size == 0)) [
    | inl e ↦
        rw (peek-none item_string z dq.heap (ground (arith, e)))
          (returns _ (empty-Tried now lag dq a (ground (arith, e))))
    | inr filled ↦
        let pos : 0 < dq.heap.size = ground (arith, filled) in
        rw (peek_first item_string z dq.heap a.queue pos) (
          Returns-if (leb (get_or dq.heap.arr 0 z).priority (now + 1_000))
            (λ due.
              Returns-bind _ (poll_takes item_string z dq.heap a.queue)
                (λ r p. returns _ (Polled-Tried now lag dq r soon a pos due p)))
            (λ late. returns _ (waiting-Tried now lag dq soon a pos late)))
  ]
