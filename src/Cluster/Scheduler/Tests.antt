-- ===== src/Cluster/Scheduler/Tests.antt =====
-- A member that leads, and then follows another, and its job tracker.
use common_tools.Prelude.{contains, ◌≡◌, refl, true, false, none, some, [], ◌∷◌, String}
use common_tools.Prelude.Int.{pos}
use common_tools.Cluster.State.{made, Cluster, Mode, Sate, create_event, get_my_name, is_ready}
use common_tools.Cluster.Leader.{sign_leader, release_leader}
use common_tools.Cluster.Rpc.{broadcast, serve, broadcast_leader}
use common_tools.Cluster.Connect.{Dial, Dialling, reconnect}
use common_tools.Cluster.Election.{Run, fighting, ask_loop, after_ask}
use common_tools.Cluster.Lifecycle.{start_member}
use common_tools.Cluster.Node.{update_heartbeat, is_node_healthy}
use common_tools.Cluster.Scheduler.{
  DefaultJobTracker, new_job_tracker, started_leading, stopped_leading, started_following,
  close_tracker, tick, consume_event, consume_all, on_started_leading, on_started_following,
  on_stopped_leading, slaver_call,
}
use common_tools.Cluster.Scheduler.Mirror.{Mirrors, live_roles}
use common_tools.Cluster.Scheduler.Mirror.Whole.{
  nothing_yet, and_then, serves, fights, start-Mirrors,
}

abbrev member : Cluster
member = record {
  mode = Mode.cluster;
  timeout = 5;
  cur_node = record {
    name = "a";
    heartbeat = none;
    last_heartbeat_ok = true;
    heartbeat_failures = 0;
  };
  leader_node = none;
  lost_leader_time = none;
  all_node = "a" ∷ "b" ∷ [];
  alive_nodes = "a" ∷ [];
  term = 0;
  sate = Sate.follower;
  votes_map = λ t. none;
  events = [];
  channel = made;
  events_closed = false;
  reconnect_pending = false;
}

-- It leads in term 1, and follows "b" in term 2.
abbrev led : Cluster
led = (sign_leader 10 (some "b") 2 (sign_leader 5 (some "a") 1 member).0).0

abbrev tracker : DefaultJobTracker String
tracker = new_job_tracker (pos 0) ("job" ∷ [])

calls_made :
    (tick 1 (tick 0 (consume_all led.events tracker))).calls
    ≡ ("job", slaver_call "b")
      ∷ ("job", on_started_following "b")
      ∷ ("job", on_stopped_leading)
      ∷ ("job", on_started_leading)
      ∷ []
unfolding tick consume_event sign_leader create_event new_job_tracker started_leading
    stopped_leading started_following
calls_made = refl

none_after_close : live_roles (close_tracker (consume_all led.events tracker)).tickers ≡ []
unfolding close_tracker consume_event sign_leader create_event new_job_tracker started_leading
    stopped_leading started_following
none_after_close = refl

abbrev dialling : Dialling
dialling = record { has_client = λ n. true; result = λ n. Dial.connected }

-- A member is started, follows "b", whose heartbeats then stop, and fights in an election that waits for answers.
abbrev started : Cluster
started = (start_member 1 true true dialling (record member { sate = Sate.init })).0

abbrev last_run : Run
last_run = record { start = 90; asks = []; rest_served = []; rest_now = 95; votes = [] }

abbrev fought : Cluster
fought = (fighting last_run (serve 10 (broadcast 1 "b") started)).0

start-Mirrors_example :
    Mirrors (get_my_name fought) fought.leader_node (consume_all fought.events tracker)
start-Mirrors_example =
    start-Mirrors (pos 0) ("job" ∷ []) 1 dialling (record member { sate = Sate.init }) refl refl
      refl refl (and_then (and_then nothing_yet (serves 10 (broadcast 1 "b"))) (fights last_run))

-- It did follow "b", and gave "b" up in the end.
calls_of_start :
    (tick 0 (consume_all (serve 10 (broadcast 1 "b") started).events tracker)).calls
    ≡ ("job", slaver_call "b") ∷ ("job", on_started_following "b") ∷ []
unfolding tick consume_event sign_leader create_event new_job_tracker started_leading
    stopped_leading started_following start_member serve broadcast_leader reconnect contains
calls_of_start = refl

alone_in_the_end : fought.leader_node ≡ none
unfolding fighting serve broadcast_leader start_member sign_leader create_event release_leader
    reconnect ask_loop after_ask update_heartbeat is_ready is_node_healthy contains
alone_in_the_end = refl
