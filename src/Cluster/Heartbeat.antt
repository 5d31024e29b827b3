-- ===== src/Cluster/Heartbeat.antt =====
-- cluster/cluster.go: the loop of `heartbeat`, by its ticks. What the streams report is the environment's.
pub mod Quorum
mod Tests
use common_tools.Prelude.{
  ℕ, ◌+◌, ◌-◌, Bool, true, false, not, ◌&&◌, ◌||◌, Option, none, some, List, [], ◌∷◌, ltb, leb,
  if◌then◌else◌,
}
use common_tools.Cluster.State.{
  Cluster, is_leader, is_follower, is_ready, get_my_name, get_quorum, trigger_reconnect,
}
use common_tools.Cluster.Leader.{release_with_node_name}

-- At a tick: the time, whether the stream manager is there, and of how many other alive nodes how
-- many answered the heartbeat.
pub record Beat : Type 0 where
  pub now : ℕ
  pub streams : Bool
  pub total : ℕ
  pub success : ℕ

-- The member, `consecutiveFailures`, and how many elections the loop has started.
pub record Pulse : Type 0 where
  pub member : Cluster
  pub failures : ℕ
  pub elections : ℕ

-- Too few nodes are there or answer.
abbrev pub insufficient : Cluster → Beat → Bool
insufficient c b = let least = get_quorum c - 1 in ltb b.total least || ltb b.success least

-- Without the manager a leader's tick ends at once.
unfoldable pub heartbeat_tick : Beat → Pulse → Pulse
heartbeat_tick b p =
    if is_leader p.member
    then if not b.streams
      then p
      else if insufficient p.member b
      then if leb 3 (p.failures + 1)
        then record p {
          member = trigger_reconnect (release_with_node_name b.now (get_my_name p.member) p.member);
          failures = 0;
        }
        else record p { member = trigger_reconnect p.member; failures = p.failures + 1 }
      else record p { member = trigger_reconnect p.member; failures = 0 }
    else if is_follower p.member
    then record p {
      member = trigger_reconnect p.member;
      elections =
          if not (is_ready b.now p.member)
            || (elim p.member.leader_node [ none ↦ true | some _ ↦ false ])
          then p.elections + 1
          else p.elections;
    }
    else record p { member = trigger_reconnect p.member }

unfoldable pub heartbeat_loop : List Beat → Pulse → Pulse
heartbeat_loop [] p = p
heartbeat_loop (b ∷ bs) p = heartbeat_loop bs (heartbeat_tick b p)
