-- ===== src/InFlight/Exclusion.antt =====
-- No two holders of a key at once.
use common_tools.Prelude.{
  ℕ, ◌+◌, ◌≡◌, refl, List, [], ◌∷◌, String, str_eq, eq_iff, arith, one, ◌&&◌,
}
use common_tools.InFlight.{InFlight, insert_string, delete_string, in_flight_string, new_in_flight}

-- The calls that threads make, one after the other under the lock.
pub data Call : Type 0 where
  insert : String → Call
  delete : String → Call

-- How many insertions of the key succeed.
abbrev pub granted : String → List Call → InFlight → ℕ
granted k [] db = 0
granted k (insert j ∷ cs) db =
    one (str_eq j k && (insert_string j db).1) + granted k cs (insert_string j db).0
granted k (delete j ∷ cs) db = granted k cs (delete_string j db)

-- How many deletions find the key there.
abbrev pub released : String → List Call → InFlight → ℕ
released k [] db = 0
released k (insert j ∷ cs) db = released k cs (insert_string j db).0
released k (delete j ∷ cs) db =
    one (str_eq j k && in_flight_string j db) + released k cs (delete_string j db)

abbrev pub after : List Call → InFlight → InFlight
after [] db = db
after (insert j ∷ cs) db = after cs (insert_string j db).0
after (delete j ∷ cs) db = after cs (delete_string j db)

insert_step :
    (k j : String) (db : InFlight)
    → one (in_flight_string k db) + one (str_eq j k && (insert_string j db).1)
      ≡ one (in_flight_string k (insert_string j db).0)
unfolding insert_string in_flight_string
insert_step k j db = ground (arith, eq_iff j k, eq_iff k j)

delete_step :
    (k j : String) (db : InFlight)
    → one (in_flight_string k db)
      ≡ one (in_flight_string k (delete_string j db)) + one (str_eq j k && in_flight_string j db)
unfolding delete_string in_flight_string
delete_step k j db = ground (arith, eq_iff j k, eq_iff k j)

balance :
    (k : String) (cs : List Call) (db : InFlight)
    → one (in_flight_string k db) + granted k cs db
      ≡ one (in_flight_string k (after cs db)) + released k cs db
balance k [] db = omega arith
balance k (insert j ∷ cs) db =
    omega (arith, insert_step k j db, balance k cs (insert_string j db).0)
balance k (delete j ∷ cs) db = omega (arith, delete_step k j db, balance k cs (delete_string j db))

none_yet : (k : String) → one (in_flight_string k new_in_flight) ≡ 0
unfolding new_in_flight in_flight_string
none_yet k = refl

-- Whatever is called, in any order, on a new table: the insertions of a key that have succeeded are as many as the
-- deletions that found it, and one more exactly while the key is in flight. So two insertions that
-- succeed have such a deletion between them.
pub exclusion :
    (k : String) (cs : List Call)
    → granted k cs new_in_flight
      ≡ one (in_flight_string k (after cs new_in_flight)) + released k cs new_in_flight
exclusion k cs = omega (arith, balance k cs new_in_flight, none_yet k)
