-- ===== src/Basic/DelayQueue/Tests.antt =====
-- An item due at one second past a time of 19 digits.
use common_tools.Prelude.{ℕ, ◌+◌, ◌*◌, ◌<◌, ◌≡◌, refl, subst, false, none, some, [], ◌∷◌, arith}
use common_tools.Prelude.Run.{ok}
use common_tools.Basic.PriorityQueue.{str_equal, offer, peek, poll}
use common_tools.Basic.DelayQueue.{
  DelayItem, DelayQueue, armed, spent, Takers, new_delay_queue, decimal, item_string, add,
  take_step, try_take, send_tick, receive_tick,
}
use common_tools.Basic.DelayQueue.Reach.{
  Reach, begin, next, adds, enters, tries, fires, wakes, nobody, IsAwake, never_late,
}

abbrev first : DelayItem ℕ
first = record { priority = 1_700_000_001_000_000_000; value = 7 }

abbrev room : ℕ → ℕ
room c = 2 * c + 1

abbrev one_item : DelayQueue ℕ
one_item = record {
  heap = record { arr = first ∷ []; cap = 1; size = 1; max_first = false };
  timer = armed 1_700_000_001_000_000_005;
}

digits_of : decimal 120 ≡ 49 ∷ 50 ∷ 48 ∷ []
unfolding decimal
digits_of = refl

room_grows : (c : ℕ) → c < room c
room_grows c = omega arith

-- The timer is set five nanoseconds after the clock was read.
added : add room 5 first (new_delay_queue 0) ≡ ok one_item
unfolding add offer peek item_string str_equal decimal
added = refl

-- A caller that tries before the item is due waits, and the timer wakes it at the item's time.
abbrev entered : Takers ℕ
entered = record { queue = one_item; trying = 1; waiting = 0 }

abbrev waits : Takers ℕ
waits = record {
  queue = record one_item { timer = armed 1_700_000_001_000_000_002 };
  trying = 0;
  waiting = 1;
}

abbrev woken : Takers ℕ
woken = record { queue = record one_item { timer = spent }; trying = 1; waiting = 0 }

abbrev taken : Takers ℕ
taken = record {
  queue = record {
    heap = record { arr = []; cap = 1; size = 0; max_first = false };
    timer = armed 1_700_000_001_000_000_001;
  };
  trying = 0;
  waiting = 0;
}

waits_first : try_take 1_700_000_000_000_000_000 2 entered ≡ ok (waits, none)
unfolding try_take take_step peek item_string
waits_first = refl

wakes_then : receive_tick (send_tick 1_700_000_001_000_000_003 waits) ≡ woken
unfolding receive_tick send_tick
wakes_then = refl

takes_then : try_take 1_700_000_001_000_000_003 1 woken ≡ ok (taken, some 7)
unfolding try_take take_step peek poll item_string
takes_then = refl

one_woken : Reach room 5 (nobody room 5 0) woken
one_woken = subst (Reach room 5 (nobody room 5 0)) wakes_then (
    next
      (next
        (next (next (next begin (adds 5 first one_item (omega arith) refl added)) enters)
          (tries 1_700_000_000_000_000_000 2 waits none (omega arith) waits_first))
        (fires 1_700_000_001_000_000_003))
      wakes)

never_late_example : IsAwake room 5 first room_grows woken
never_late_example = never_late room 5 first room_grows 0 one_woken
