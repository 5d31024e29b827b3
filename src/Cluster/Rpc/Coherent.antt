-- ===== src/Cluster/Rpc/Coherent.antt =====
-- The handlers keep the state and the leader of a member in agreement.
use common_tools.Prelude.{ℕ, ◌≡◌, ◌≢◌, some, String, arith}
use common_tools.Cluster.Node.{update_heartbeat}
use common_tools.Cluster.State.{Cluster, Sate, Mode, trigger_reconnect, get_my_name, is_ready}
use common_tools.Cluster.Leader.{
  IsCoherent, sign_leader-IsCoherent, release_leader-IsCoherent, release_leader_lem,
}
use common_tools.Cluster.Rpc.{
  ask_vote, ask_leader, broadcast_leader, heartbeat, get_vote_node_name, Request, serve, vote,
  leader, broadcast, beat,
}

get_vote_node_name-IsCoherent :
    (t : ℕ) (n : String) (c : Cluster) → IsCoherent c → IsCoherent (get_vote_node_name t n c).0
unfolding get_vote_node_name
get_vote_node_name-IsCoherent t n c v = ground arith

ask_vote-IsCoherent :
    (now t : ℕ) (n : String) (c : Cluster) → IsCoherent c → IsCoherent (ask_vote now t n c).0
unfolding ask_vote
ask_vote-IsCoherent now t n c v = ground (
  arith,
  get_vote_node_name-IsCoherent t n c v,
  release_leader-IsCoherent now (get_vote_node_name t n c).0,
)

trigger_reconnect-IsCoherent : (c : Cluster) → IsCoherent c → IsCoherent (trigger_reconnect c)
unfolding trigger_reconnect
trigger_reconnect-IsCoherent c v = ground arith

ask_leader-IsCoherent :
    (now t : ℕ) (n : String) (c : Cluster) → IsCoherent c → IsCoherent (ask_leader now t n c).0
unfolding ask_leader
ask_leader-IsCoherent now t n c v = ground (arith, trigger_reconnect-IsCoherent c v)

broadcast_leader-IsCoherent :
    (now t : ℕ) (n : String) (c : Cluster)
    → IsCoherent c
    → IsCoherent (broadcast_leader now t n c).0
unfolding broadcast_leader
broadcast_leader-IsCoherent now t n c v = ground (
  arith,
  sign_leader-IsCoherent now (some n) t (trigger_reconnect c) (trigger_reconnect-IsCoherent c v),
  sign_leader-IsCoherent now (some (get_my_name c)) t c v,
  sign_leader-IsCoherent now (some n) t c v,
)

heartbeat-IsCoherent :
    (now t : ℕ) (n : String) (c : Cluster) → IsCoherent c → IsCoherent (heartbeat now t n c).0
unfolding heartbeat update_heartbeat
heartbeat-IsCoherent now t n c v = ground arith

-- A member whose state and leader agree still has them agree after any request: it is in the leader
-- state exactly when the leader that it knows is itself.
pub serve-IsCoherent :
    (now : ℕ) (r : Request) (c : Cluster) → IsCoherent c → IsCoherent (serve now r c)
unfolding serve
serve-IsCoherent now (vote t n) c v = ask_vote-IsCoherent now t n c v
serve-IsCoherent now (leader t n) c v = ask_leader-IsCoherent now t n c v
serve-IsCoherent now (broadcast t n) c v = broadcast_leader-IsCoherent now t n c v
serve-IsCoherent now (beat t n) c v = heartbeat-IsCoherent now t n c v

-- A member that was closed serves a vote request as a follower again: the handler does not look at
-- the closed state.
pub ask_vote-reopens :
    (now t : ℕ) (n : String) (c : Cluster)
    → c.mode ≢ Mode.redis
    → c.sate ≡ Sate.closed
    → (ask_vote now t n c).0.sate ≡ Sate.follower
unfolding ask_vote is_ready get_vote_node_name
ask_vote-reopens now t n c m closed =
    ground (arith, release_leader_lem now (get_vote_node_name t n c).0)
