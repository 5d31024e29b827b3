-- ===== src/Cluster/Leader.antt =====
-- cluster/cluster.go: taking a leader and giving it up (`signLeader`, `releaseLeader`,
-- `releaseWithNodeName`). Each runs under `leaderLock`, and is one step here; the events are sent
-- after the lock is given back.
use common_tools.Prelude.{
  ℕ, ◌≡◌, ◌≤◌, Bool, true, false, not, Option, none, some, List, [], ◌∷◌, ◌++◌, String, str_eq,
  eq_iff, arith, ltb, if◌then◌else◌,
}
use common_tools.Cluster.Node.{update_heartbeat}
use common_tools.Cluster.State.{
  Cluster, Sate, EventName, unsign_master, unsign_follower, sign_master, sign_follower, get_my_name,
  create_event,
}

-- The event that says which leader is given up.
unfoldable pub unsign_event : Cluster → String → EventName
unsign_event c leader = if str_eq leader (get_my_name c) then unsign_master else unsign_follower

abbrev pub send_all : List (EventName × String) → Cluster → Cluster
send_all [] c = c
send_all ((name, leader) ∷ evs) c = send_all evs (create_event name leader c)

-- The events of giving up the present leader, if there is one.
unfoldable pub released : Cluster → List (EventName × String)
released c = elim c.leader_node [ none ↦ [] | some l ↦ (unsign_event c l, "") ∷ [] ]

unfoldable pub sign_leader : ℕ → Option String → ℕ → Cluster → Cluster × Bool
unfolding released unsign_event
sign_leader now none term c = (c, false)
sign_leader now (some node) term c =
    if ltb term c.term
    then (c, false)
    else if str_eq node (get_my_name c)
    then (
      send_all (released c ++ (sign_master, node) ∷ []) (record c {
        sate = Sate.leader;
        lost_leader_time = none;
        leader_node = some node;
        term = term;
      }),
      true,
    )
    else (
      send_all (released c ++ (sign_follower, node) ∷ []) (record c {
        sate = Sate.follower;
        cur_node = update_heartbeat now c.cur_node;
        lost_leader_time = none;
        leader_node = some node;
        term = term;
      }),
      true,
    )

-- `releaseWithNodeName`: only a leader steps down, and only from the named leader.
unfoldable pub release_with_node_name : ℕ → String → Cluster → Cluster
unfolding unsign_event
release_with_node_name now name c = elim c.leader_node [
  | none ↦ c
  | some l ↦ if not (str_eq l name) then c else elim c.sate [
    | Sate.leader ↦
        create_event (unsign_event c l) ""
          (record c { sate = Sate.follower; lost_leader_time = some now; leader_node = none })
    | _ ↦ c
  ]
]

unfoldable pub release_leader : ℕ → Cluster → Cluster
unfolding unsign_event
release_leader now c = elim c.leader_node [
  | none ↦ record c { sate = Sate.follower }
  | some l ↦
      create_event (unsign_event c l) ""
        (record c { sate = Sate.follower; lost_leader_time = some now; leader_node = none })
]

-- Sending events changes nothing but the list of events.
pub record SameBut (c d : Cluster) : Type 0 where
  pub cur_node : d.cur_node ≡ c.cur_node
  pub leader_node : d.leader_node ≡ c.leader_node
  pub term : d.term ≡ c.term
  pub sate : d.sate ≡ c.sate
  pub votes_map : d.votes_map ≡ c.votes_map
  pub all_node : d.all_node ≡ c.all_node
  pub alive_nodes : d.alive_nodes ≡ c.alive_nodes

pub create_event-SameBut :
    (n : EventName) (l : String) (c : Cluster) → SameBut c (create_event n l c)
unfolding create_event
create_event-SameBut n l c = ground arith

pub send_all-SameBut : (evs : List (EventName × String)) (c : Cluster) → SameBut c (send_all evs c)
send_all-SameBut [] c = ground arith
send_all-SameBut ((n, l) ∷ evs) c =
    ground (arith, create_event-SameBut n l c, send_all-SameBut evs (create_event n l c))

-- What `signLeader` leaves alone, and what it changes when it takes the leader.
pub record Signs (c d : Cluster) (node : Option String) (term : ℕ) (taken : Bool) : Type 0 where
  pub refused : taken ≡ false → d ≡ c
  pub leader : taken ≡ true → d.leader_node ≡ node
  pub at_term : taken ≡ true → d.term ≡ term
  pub forward : c.term ≤ d.term
  pub votes : d.votes_map ≡ c.votes_map
  pub me : get_my_name d ≡ get_my_name c
  pub nodes : d.all_node ≡ c.all_node

pub sign_leader-Signs :
    (now : ℕ) (node : Option String) (term : ℕ) (c : Cluster)
    → let (d, taken) = sign_leader now node term c in Signs c d node term taken
unfolding sign_leader create_event update_heartbeat
sign_leader-Signs now none term c = ground arith
sign_leader-Signs now (some n) term c = ground arith

-- What giving up a leader leaves alone.
pub record Releases (c d : Cluster) : Type 0 where
  pub term : d.term ≡ c.term
  pub votes : d.votes_map ≡ c.votes_map
  pub me : get_my_name d ≡ get_my_name c
  pub nodes : d.all_node ≡ c.all_node

pub release_leader-Releases : (now : ℕ) (c : Cluster) → Releases c (release_leader now c)
unfolding release_leader create_event
release_leader-Releases now c = ground arith

pub release_with_node_name-Releases :
    (now : ℕ) (name : String) (c : Cluster) → Releases c (release_with_node_name now name c)
unfolding release_with_node_name create_event
release_with_node_name-Releases now name c = ground arith

-- `releaseLeader` makes a follower without a leader.
pub release_leader_lem :
    (now : ℕ) (c : Cluster)
    → ((release_leader now c).sate ≡ Sate.follower) × ((release_leader now c).leader_node ≡ none)
unfolding release_leader create_event
release_leader_lem now c = ground arith

-- The state and the leader agree: a member is in the leader state exactly when it is its own leader.
pub record IsCoherent (c : Cluster) : Type 0 where
  pub leads : c.sate ≡ Sate.leader → c.leader_node ≡ some (get_my_name c)
  pub led : c.leader_node ≡ some (get_my_name c) → c.sate ≡ Sate.leader

pub sign_leader-IsCoherent :
    (now : ℕ) (node : Option String) (term : ℕ) (c : Cluster)
    → IsCoherent c
    → IsCoherent (sign_leader now node term c).0
unfolding sign_leader create_event update_heartbeat
sign_leader-IsCoherent now none term c v = ground arith
sign_leader-IsCoherent now (some n) term c v = ground (arith, eq_iff n (get_my_name c))

pub release_leader-IsCoherent : (now : ℕ) (c : Cluster) → IsCoherent (release_leader now c)
unfolding release_leader create_event
release_leader-IsCoherent now c = ground arith

pub release_with_node_name-IsCoherent :
    (now : ℕ) (name : String) (c : Cluster)
    → IsCoherent c
    → IsCoherent (release_with_node_name now name c)
unfolding release_with_node_name create_event
release_with_node_name-IsCoherent now name c v = ground arith
