-- ===== src/Cluster/Heartbeat/Tests.antt =====
-- A leader of three nodes that no other node answers.
use common_tools.Prelude.{ℕ, ◌≤◌, refl, arith, true, false, none, some, List, [], ◌∷◌, length, take}
use common_tools.Cluster.State.{made, Mode, Sate, get_quorum}
use common_tools.Cluster.Heartbeat.{Beat, Pulse, heartbeat_loop}
use common_tools.Cluster.Heartbeat.Quorum.{SteppedDown, leader-SteppedDown}

abbrev leader_pulse : Pulse
leader_pulse = record {
  member = record {
    mode = Mode.cluster;
    timeout = 5;
    cur_node = record {
      name = "a";
      heartbeat = none;
      last_heartbeat_ok = true;
      heartbeat_failures = 0;
    };
    leader_node = some "a";
    lost_leader_time = none;
    all_node = "a" ∷ "b" ∷ "c" ∷ [];
    alive_nodes = "a" ∷ "b" ∷ [];
    term = 3;
    sate = Sate.leader;
    votes_map = λ t. none;
    events = [];
    channel = made;
    events_closed = false;
    reconnect_pending = false;
  };
  failures = 0;
  elections = 0;
}

-- One other node is there, and does not answer.
abbrev missed : ℕ → Beat
missed now = record { now = now; streams = true; total = 1; success = 0 }

abbrev beats : List Beat
beats = missed 1 ∷ missed 2 ∷ missed 3 ∷ []

leader-SteppedDown_example :
    (n : ℕ) × (n ≤ length beats) × SteppedDown (heartbeat_loop (take n beats) leader_pulse).member
unfolding get_quorum
leader-SteppedDown_example =
    leader-SteppedDown beats leader_pulse (record { leads = λ e. refl; led = λ e. refl }) refl
      (omega arith) (omega arith) ((refl, refl), ((refl, refl), ((refl, refl), tt)))
