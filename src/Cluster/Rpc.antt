-- ===== src/Cluster/Rpc.antt =====
-- cluster/grpc_server.go and the vote map of cluster/cluster.go: what a member answers to the
-- others. A handler is one step on the member; terms stay below 2^31, since each election adds
-- one, so the conversions between `int` and `int32` keep them.
pub mod Votes
pub mod Coherent
use common_tools.Prelude.{
  ℕ, ◌≡◌, Bool, true, false, not, ◌&&◌, ◌||◌, Option, none, some, String, str_eq, ltb, leb, ◌==◌,
  if◌then◌else◌, contains,
}
use common_tools.Cluster.Node.{update_heartbeat}
use common_tools.Cluster.State.{Cluster, get_my_name, get_leader_name, is_ready, trigger_reconnect}
use common_tools.Cluster.Leader.{sign_leader, release_leader}

-- `votesMap[term] = nodeName`
abbrev pub store_vote : ℕ → String → Cluster → Cluster
store_vote term node c = record c {
  votes_map = λ t. if t == term then some node else c.votes_map t;
}

-- The node that this member votes for in `term`: the first that asked.
unfoldable pub get_vote_node_name : ℕ → String → Cluster → Cluster × String
get_vote_node_name term node c = elim (c.votes_map term) [
  | none ↦ (store_vote term node c, node)
  | some v ↦ (c, v)
]

unfoldable pub vote_node : ℕ → String → Cluster → Cluster × Bool
vote_node term node c = elim (c.votes_map term) [
  | none ↦ (store_vote term node c, true)
  | some v ↦ (c, str_eq v node)
]

pub record AskVoteResponse : Type 0 where
  pub node_name : String
  pub term : ℕ
  pub vote_node_name : String
  pub success : Bool

unfoldable pub ask_vote : ℕ → ℕ → String → Cluster → Cluster × AskVoteResponse
unfolding get_vote_node_name
ask_vote now req_term req_node c =
    let (voted, vote) = get_vote_node_name req_term req_node c in
    let agrees = not (is_ready now voted) || ltb voted.term req_term in
    (
      if agrees then release_leader now voted else voted,
      record {
        node_name = get_my_name c;
        term = req_term;
        vote_node_name = vote;
        success = agrees;
      },
    )

pub record LeaderResponse : Type 0 where
  pub node_name : String
  pub term : ℕ
  pub leader_node_name : String
  pub success : Bool

unfoldable pub ask_leader : ℕ → ℕ → String → Cluster → Cluster × LeaderResponse
ask_leader now req_term req_node c = (
  if contains req_node c.alive_nodes then c else trigger_reconnect c,
  if is_ready now c && leb req_term c.term
      then record {
        node_name = get_my_name c;
        term = c.term;
        leader_node_name = get_leader_name c;
        success = true;
      }
      else if leb req_term c.term
      then record {
        node_name = get_my_name c;
        term = c.term;
        leader_node_name = "";
        success = true;
      }
      else record {
        node_name = get_my_name c;
        term = req_term;
        leader_node_name = "";
        success = false;
      },
)

-- The node of that name, and whether it had to be looked up among the unconnected nodes.
pub find_leader : String → Cluster → Option (String × Bool)
find_leader leader c =
    if contains leader c.alive_nodes
    then some (leader, false)
    else if str_eq leader (get_my_name c)
    then some (get_my_name c, false)
    else if contains leader c.all_node
    then some (leader, true)
    else none

unfoldable pub broadcast_leader : ℕ → ℕ → String → Cluster → Cluster × LeaderResponse
unfolding find_leader
broadcast_leader now req_term leader c =
    if ltb req_term c.term
    then (
      c,
      record { node_name = get_my_name c; term = c.term; leader_node_name = ""; success = false },
    )
    else elim (find_leader leader c) [
      | none ↦ (
        c,
        record {
          node_name = get_my_name c;
          term = req_term;
          leader_node_name = "";
          success = false;
        },
      )
      | some (node, lost) ↦ (
        (sign_leader now (some node) req_term (if lost then trigger_reconnect c else c)).0,
        record {
          node_name = get_my_name c;
          term = req_term;
          leader_node_name = leader;
          success = true;
        },
      )
    ]

-- The answer to one heartbeat of the stream.
unfoldable pub heartbeat : ℕ → ℕ → String → Cluster → Cluster × LeaderResponse
heartbeat now req_term req_node c =
    let answer : ℕ → Bool → LeaderResponse = λ t ok. record {
      node_name = get_my_name c;
      term = t;
      leader_node_name = get_leader_name c;
      success = ok;
    } in
    if ltb req_term c.term
    then (c, answer c.term false)
    else if not (str_eq (get_leader_name c) req_node)
    then (c, answer req_term false)
    else (record c { cur_node = update_heartbeat now c.cur_node }, answer req_term true)

-- The four requests that members send one another, and the member after it has served one.
pub data Request : Type 0 where
  vote : ℕ → String → Request
  leader : ℕ → String → Request
  broadcast : ℕ → String → Request
  beat : ℕ → String → Request

unfoldable pub serve : ℕ → Request → Cluster → Cluster
serve now (vote t n) c = (ask_vote now t n c).0
serve now (leader t n) c = (ask_leader now t n c).0
serve now (broadcast t n) c = (broadcast_leader now t n c).0
serve now (beat t n) c = (heartbeat now t n c).0
