-- ===== src/Cluster/State.antt =====
-- cluster/cluster.go: the state of a cluster member, and its events (event.go).
-- A node that is stored in `allNode` or `aliveNodes`, or is the leader, is known by its name, under
-- which the source stores it. The event channel is the list of the events sent.
use common_tools.Prelude.{
  ℕ, ◌+◌, ◌/◌, Bool, true, false, not, ◌&&◌, ◌||◌, Option, none, some, List, [], ◌∷◌, ◌++◌, String,
  str_eq, length, ◌==◌, if◌then◌else◌,
}
use common_tools.Cluster.Node.{Node, is_node_healthy}

-- `_init`, `follower`, `candidate`, `leader`, `closed`
pub data Sate : Type 0 where
  init follower candidate leader closed : Sate

pub data Mode : Type 0 where
  cluster single redis : Mode

pub data EventName : Type 0 where
  start_up sign_master sign_follower unsign_master unsign_follower : EventName
  election_start election_finish close : EventName

-- The field `events`: nil, a channel, or one that is closed.
pub data Channel : Type 0 where
  unmade made shut : Channel

pub record Event : Type 0 where
  pub name : EventName
  pub cluster_stat : Sate
  pub node_name : String
  pub leader_name : String

pub record Cluster : Type 0 where
  pub mode : Mode
  pub timeout : ℕ
  pub cur_node : Node
  pub leader_node : Option String
  pub lost_leader_time : Option ℕ
  pub all_node : List String
  pub alive_nodes : List String
  pub term : ℕ
  pub sate : Sate
  pub votes_map : ℕ → Option String
  pub events : List Event
  pub channel : Channel
  pub events_closed : Bool
  pub reconnect_pending : Bool

abbrev pub get_my_name : Cluster → String
get_my_name c = c.cur_node.name

-- `GetLeaderName`: the empty name without a leader.
abbrev pub get_leader_name : Cluster → String
get_leader_name c = elim c.leader_node [ none ↦ "" | some n ↦ n ]

abbrev pub is_closed : Cluster → Bool
is_closed c = elim c.sate [ Sate.closed ↦ true | _ ↦ false ]

abbrev pub is_leader : Cluster → Bool
is_leader c = elim c.sate [ Sate.leader ↦ true | _ ↦ false ]

abbrev pub is_follower : Cluster → Bool
is_follower c = elim c.sate [ Sate.follower ↦ true | _ ↦ false ]

-- `IsReady` at the time `now`
unfoldable pub is_ready : ℕ → Cluster → Bool
is_ready now c = elim c.mode [
  | Mode.redis ↦ not (str_eq (get_leader_name c) "")
  | _ ↦ is_leader c || (is_follower c && is_node_healthy c.timeout now (some c.cur_node))
]

-- `c.eventsClosed || c.events == nil`
abbrev pub drops : Cluster → Bool
drops c = c.events_closed || (elim c.channel [ unmade ↦ true | _ ↦ false ])

-- `getQuorum`
unfoldable pub get_quorum : Cluster → ℕ
get_quorum c = if length c.all_node == 0 then 1 else length c.all_node / 2 + 1

is_close_event : EventName → Bool
is_close_event close = true
is_close_event _ = false

-- `createEvent`, while the channel has room and the context is not cancelled.
unfoldable pub create_event : EventName → String → Cluster → Cluster
unfolding is_close_event
create_event name leader_name c =
    if drops c then c else if is_closed c && not (is_close_event name) then c else record c {
      events =
          c.events
          ++ record {
            name = name;
            cluster_stat = c.sate;
            node_name = get_my_name c;
            leader_name = leader_name;
          }
            ∷ [];
    }

-- `triggerReconnect`: the goroutine that it starts is the environment's (`Election.Round`).
unfoldable pub trigger_reconnect : Cluster → Cluster
trigger_reconnect c = if is_closed c then c else record c { reconnect_pending = true }
