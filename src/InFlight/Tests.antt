-- ===== src/InFlight/Tests.antt =====
-- A key that is inserted twice, deleted, and inserted again.
use common_tools.Prelude.{◌+◌, ◌≡◌, refl, List, [], ◌∷◌, one}
use common_tools.InFlight.{insert_string, delete_string, in_flight_string, new_in_flight}
use common_tools.InFlight.Exclusion.{Call, insert, delete, granted, released, after, exclusion}

abbrev calls : List Call
calls = insert "a" ∷ insert "a" ∷ delete "a" ∷ insert "b" ∷ insert "a" ∷ []

twice : granted "a" calls new_in_flight ≡ 2
unfolding insert_string delete_string new_in_flight
twice = refl

exclusion_example :
    granted "a" calls new_in_flight
    ≡ one (in_flight_string "a" (after calls new_in_flight)) + released "a" calls new_in_flight
exclusion_example = exclusion "a" calls
