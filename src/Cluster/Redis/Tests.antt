-- ===== src/Cluster/Redis/Tests.antt =====
-- Ticks of a member in the mode "redis".
use common_tools.Prelude.{
  ℕ, ◌≡◌, ◌≢◌, ◌⊎◌, refl, Bool, true, false, not, ◌&&◌, ◌||◌, Option, none, some, [], ◌∷◌, String,
  contains, str_eq, ltb, if◌then◌else◌,
}
use common_tools.Prelude.Int.{pos, leb_ℤ}
use common_tools.Cluster.State.{
  made, Cluster, Mode, Sate, get_leader_name, create_event, election_start, election_finish,
}
use common_tools.Cluster.Leader.{release_leader}
use common_tools.Cluster.Redis.{
  Answer, answer, failed, a_watch, an_election, held, redis_fighting, fighting_with_retry,
  watch_dog_tick, update_nodes_from_redis, sync_leader_tick,
}
use common_tools.Cluster.Redis.Lease.{
  Decides, redis_fighting-Decides, watch_dog_tick_lem, sync_leader_tick_lem,
}
use common_tools.Cluster.Redis.Nodes.{update_nodes_from_redis_lem}

abbrev member : Cluster
member = record {
  mode = Mode.redis;
  timeout = 5;
  cur_node = record {
    name = "a";
    heartbeat = none;
    last_heartbeat_ok = true;
    heartbeat_failures = 0;
  };
  leader_node = some "b";
  lost_leader_time = none;
  all_node = "a" ∷ "b" ∷ [];
  alive_nodes = "b" ∷ [];
  term = 0;
  sate = Sate.follower;
  votes_map = λ t. none;
  events = [];
  channel = made;
  events_closed = false;
  reconnect_pending = false;
}

abbrev no_key : Answer (Option String)
no_key = answer none

abbrev key_of : String → Answer (Option String)
key_of name = answer (some name)

-- Two tries fail, then the key is held.
abbrev two_errors : ℕ → Answer Bool
two_errors n = if ltb n 2 then failed else answer false

two_waits : fighting_with_retry two_errors 0 ≡ (held, 1 ∷ 2 ∷ [])
unfolding fighting_with_retry
two_waits = refl

redis_fighting-Decides_example :
    let (d, fight, waited) = redis_fighting two_errors (λ c. c) member in
    let started = create_event election_start "" member in
    Decides two_errors 3 0 (fight, waited)
    × (d ≡ create_event election_finish (get_leader_name started) started)
redis_fighting-Decides_example = redis_fighting-Decides two_errors (λ c. c) member

watch_dog_tick_lem_example :
    let r = watch_dog_tick 7 (pos 9000) true no_key member in
    ((r.1 ≡ true)
      × (r.0 ≡ member)
      × (no_key ≡ key_of "b")
      × (get_leader_name member ≢ "")
      × (leb_ℤ (pos 9000) (pos 0) ≡ false)
      × (true ≡ true))
    ⊎ ((r.1 ≡ false)
        × (r.0 ≡ release_leader 7 member)
        × ((no_key ≢ key_of "b")
            ⊎ ((get_leader_name member ≡ "")
                ⊎ ((leb_ℤ (pos 9000) (pos 0) ≡ true) ⊎ (true ≡ false)))))
watch_dog_tick_lem_example = watch_dog_tick_lem 7 (pos 9000) true no_key member

sync_leader_tick_lem_example :
    let r = sync_leader_tick 7 (key_of "a") failed member in
    (r.1 ≡ an_election
      → (key_of "a" ≡ no_key) × (r.0.sate ≡ Sate.follower) × (r.0.leader_node ≡ none))
    × (r.1 ≡ a_watch
        → (key_of "a" ≡ key_of "a") × (r.0.sate ≡ Sate.leader) × (r.0.leader_node ≡ some "a"))
sync_leader_tick_lem_example = sync_leader_tick_lem 7 (key_of "a") failed member

update_nodes_from_redis_lem_example :
    let d = update_nodes_from_redis ("c" ∷ []) member in
    (contains "b" d.all_node
      ≡ (contains "b" ("c" ∷ []) || (contains "b" ("a" ∷ "b" ∷ []) && str_eq "b" "a")))
    × (contains "b" d.alive_nodes ≡ (
        contains "b" ("b" ∷ [])
        && (not (contains "b" ("a" ∷ "b" ∷ [])) || (str_eq "b" "a" || contains "b" ("c" ∷ [])))))
update_nodes_from_redis_lem_example = update_nodes_from_redis_lem ("c" ∷ []) member "b"
