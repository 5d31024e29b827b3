-- ===== src/InFlight.antt =====
-- pkg/inflight/inflight.go: the keys of the requests under way. Each method holds the spin lock throughout, so it
-- is one step.
pub mod Exclusion
mod Tests
use common_tools.Prelude.{Bool, true, false, Option, none, some, String, str_eq, if◌then◌else◌}

-- The map has `true` for the keys that it has.
pub record InFlight : Type 0 where
  pub in_flight : String → Option Bool

unfoldable pub new_in_flight : InFlight
new_in_flight = record { in_flight = λ k. none }

unfoldable pub insert_string : String → InFlight → InFlight × Bool
insert_string key db = elim (db.in_flight key) [
  | some _ ↦ (db, false)
  | none ↦ (record { in_flight = λ k. if str_eq k key then some true else db.in_flight k }, true)
]

unfoldable pub delete_string : String → InFlight → InFlight
delete_string key db = record { in_flight = λ k. if str_eq k key then none else db.in_flight k }

unfoldable pub in_flight_string : String → InFlight → Bool
in_flight_string key db = elim (db.in_flight key) [ none ↦ false | some _ ↦ true ]
