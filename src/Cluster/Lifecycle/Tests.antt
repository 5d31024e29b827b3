-- ===== src/Cluster/Lifecycle/Tests.antt =====
-- A member of the mode "single" is closed and started again.
use common_tools.Prelude.{◌≡◌, refl, true, false, none, some, [], ◌∷◌}
use common_tools.Prelude.Run.{ok, ◌>>=◌}
use common_tools.Cluster.State.{
  made, unmade, Cluster, Mode, Sate, start_up, sign_master, sign_follower, create_event,
}
use common_tools.Cluster.Leader.{sign_leader, release_leader}
use common_tools.Cluster.Connect.{connected, Dialling}
use common_tools.Cluster.Lifecycle.{start_member, close_member, close_channel}

abbrev dialling : Dialling
dialling = record { has_client = λ n. false; result = λ n. connected }

abbrev alone : Cluster
alone = record {
  mode = Mode.single;
  timeout = 5;
  cur_node = record {
    name = "single";
    heartbeat = none;
    last_heartbeat_ok = true;
    heartbeat_failures = 0;
  };
  leader_node = some "single";
  lost_leader_time = none;
  all_node = "single" ∷ [];
  alive_nodes = "single" ∷ [];
  term = 0;
  sate = Sate.leader;
  votes_map = λ t. none;
  events = [];
  channel = made;
  events_closed = false;
  reconnect_pending = false;
}

-- The first time, the member's events say that it leads.
first_start :
    (start_member 1 true false dialling
      (record alone { sate = Sate.init; leader_node = none })).0.events
    ≡ record {
      name = start_up;
      cluster_stat = Sate.follower;
      node_name = "single";
      leader_name = "";
    }
      ∷ record {
        name = sign_master;
        cluster_stat = Sate.leader;
        node_name = "single";
        leader_name = "single";
      }
      ∷ record {
        name = sign_follower;
        cluster_stat = Sate.leader;
        node_name = "single";
        leader_name = "single";
      }
      ∷ []
unfolding start_member create_event sign_leader
first_start = refl

-- A member that was never started has no channel to close, and can be started and heard.
never_started :
    (close_member 7 true (record alone { sate = Sate.init; leader_node = none; channel = unmade })
      >>= λ d. ok d.events_closed)
    ≡ ok false
unfolding close_member close_channel release_leader create_event
never_started = refl
