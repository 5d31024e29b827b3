-- ===== src/Cluster/Lifecycle.antt =====
-- cluster/cluster.go: `Start` and `Close`, up to the goroutines that they start and stop. The connections that
-- `Start` makes are those that `dial` gives. A member without a current node is left out.
pub mod Restart
mod Tests
use common_tools.Prelude.{
  ℕ, Bool, true, false, not, ◌&&◌, ◌||◌, none, some, List, [], ◌∷◌, ◌++◌, String, if◌then◌else◌,
}
use common_tools.Prelude.Run.{Run, ok, panic}
use common_tools.Cluster.Node.{clean}
use common_tools.Cluster.State.{
  made, shut, unmade, Cluster, Mode, Sate, start_up, sign_follower, close, get_my_name, is_closed,
  create_event,
}
use common_tools.Cluster.Leader.{sign_leader, release_leader}
use common_tools.Cluster.Connect.{Dialling, reconnect}

abbrev pub is_single : Cluster → Bool
is_single c = elim c.mode [ Mode.single ↦ true | _ ↦ false ]

-- A member may start that is new or was closed.
abbrev pub may_start : Cluster → Bool
may_start c = elim c.sate [ Sate.init ↦ true | Sate.closed ↦ true | _ ↦ false ]

-- The event channel is new; `first` is the state before it.
abbrev pub open_channel : Cluster → Cluster
open_channel first = create_event start_up "" (record first { events = []; channel = made })

-- The deferred call of the mode "single", which makes the member its own leader.
abbrev pub lead_alone : ℕ → Cluster → Cluster
lead_alone now up =
    let led = (sign_leader now (some (get_my_name up)) 0 up).0 in
    create_event sign_follower (get_my_name led) led

-- `Start`: the member, and whether there is no error. `listens` says whether the address can be
-- listened on.
unfoldable pub start_member : ℕ → Bool → Bool → Dialling → Cluster → Cluster × Bool
start_member now enabled listens dial c =
    let first : Cluster = record c { term = 0; sate = Sate.follower } in
    if not enabled || not (may_start c)
    then (c, true)
    else if is_single c
    then (lead_alone now (open_channel first), true)
    else if listens
    then (open_channel (reconnect dial first), true)
    else (record first { sate = Sate.init }, false)

-- The last part of `Close`: a channel that is there takes the close event, whatever state the member has, and is closed. A send on
-- a closed channel panics.
unfoldable pub close_channel : Cluster → Run Cluster
close_channel c = elim c.channel [
  | unmade ↦ ok c
  | shut ↦ panic
  | made ↦ ok (record c {
    events =
        c.events
        ++ record {
          name = close;
          cluster_stat = c.sate;
          node_name = get_my_name c;
          leader_name = "";
        }
          ∷ [];
    channel = shut;
    events_closed = true;
  })
]

-- `Close`
unfoldable pub close_member : ℕ → Bool → Cluster → Run Cluster
unfolding close_channel
close_member now enabled c =
    if is_closed c || not enabled
    then ok c
    else let released = release_leader now c in
      close_channel (record released { cur_node = clean released.cur_node; sate = Sate.closed })
