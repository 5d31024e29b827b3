-- ===== src/Cluster/Scheduler/Mirror/Changes.antt =====
-- A job tracker follows every change of its member's leader.
use common_tools.Prelude.{
  ℕ, ◌≡◌, inl, inr, refl, sym, subst, false, not, Option, none, some, List, [], ◌∷◌, ◌++◌, String,
  str_eq, Bool-cases, Option-cases, ltb,
}
use common_tools.Prelude.Int.{ℤ}
use common_tools.Cluster.Node.{update_heartbeat}
use common_tools.Cluster.State.{
  Cluster, Sate, EventName, start_up, election_start, election_finish, sign_master, sign_follower,
  get_my_name, create_event,
}
use common_tools.Cluster.Leader.{
  released, unsign_event, sign_leader, release_leader, release_with_node_name,
}
use common_tools.Cluster.Scheduler.{DefaultJobTracker, consume_event, consume_all, new_job_tracker}
use common_tools.Cluster.Scheduler.Mirror.{Mirrors}
use common_tools.Cluster.Scheduler.Mirror.Events.{
  event_of, IsOpen, Tracks, tracker, as_leader, as_follower, without_leader, takes-Mirrors,
  sent-Tracks, unsign-Mirrors,
}

-- How a member's leader can change, and what else happens: an event that says nothing of a leader, or
-- a change that leaves leader, name and events alone and does not close the member.
pub data Change (c : Cluster) : Cluster → Type 0 where
  signs : (now : ℕ) (node : Option String) (term : ℕ) → Change c (sign_leader now node term c).0
  releases : (now : ℕ) → Change c (release_leader now c)
  releases_named : (now : ℕ) (name : String) → Change c (release_with_node_name now name c)
  starts_up : (leader : String) → Change c (create_event start_up leader c)
  starts_election : (leader : String) → Change c (create_event election_start leader c)
  ends_election : (leader : String) → Change c (create_event election_finish leader c)
  elsewhere :
      (d : Cluster)
      → IsOpen d
      → get_my_name d ≡ get_my_name c
      → d.leader_node ≡ c.leader_node
      → d.events ≡ c.events
      → Change c d

pub data Changes (c : Cluster) : Cluster → Type 0 where
  no_change : Changes c c
  one_more : {d e : Cluster} → Changes c d → Change d e → Changes c e

module _ {C : Type 0} where
  module _ (t0 : DefaultJobTracker C) where
    sign_leader-Tracks :
        (now : ℕ) (node : Option String) (term : ℕ) (c : Cluster)
        → Tracks t0 c
        → Tracks t0 (sign_leader now node term c).0
    unfolding sign_leader update_heartbeat
    sign_leader-Tracks now none term c k = k
    sign_leader-Tracks now (some node) term c k = elim (Bool-cases (ltb term c.term)) [
      | inl stale ↦ rw (stale, sign_leader) k
      | inr current ↦ elim (Bool-cases (str_eq node (get_my_name c))) [
        | inl mine ↦
            rw (current, mine, sign_leader)
              (sent-Tracks t0 c (as_leader node term c) (released c ++ (sign_master, node) ∷ [])
                (record { channel = k.is_open.channel; state = refl }) refl
                (takes-Mirrors t0 c (as_leader node term c) node sign_master (tracker t0 c)
                  (rw mine refl) k.mirrors))
        | inr other ↦
            rw (current, other, sign_leader)
              (sent-Tracks t0 c (as_follower now node term c)
                (released c ++ (sign_follower, node) ∷ [])
                (record { channel = k.is_open.channel; state = refl }) refl
                (takes-Mirrors t0 c (as_follower now node term c) node sign_follower (tracker t0 c)
                  (rw other refl) k.mirrors))
      ]
    ]

    -- Giving up a leader.
    release-Tracks :
        (now : ℕ) (c : Cluster) (l : String)
        → c.leader_node ≡ some l
        → Tracks t0 c
        → Tracks t0 (create_event (unsign_event c l) "" (without_leader now c))
    release-Tracks now c l led k =
        sent-Tracks t0 c (without_leader now c) ((unsign_event c l, "") ∷ [])
          (record { channel = k.is_open.channel; state = refl }) refl
          (unsign-Mirrors t0 c (without_leader now c) l (tracker t0 c)
            (subst (λ o. Mirrors (get_my_name c) o (tracker t0 c)) led k.mirrors))

    release_leader-Tracks : (now : ℕ) (c : Cluster) → Tracks t0 c → Tracks t0 (release_leader now c)
    unfolding release_leader
    release_leader-Tracks now c k = elim (Option-cases c.leader_node) [
      | inl alone ↦
          rw (alone, release_leader)
            (record {
              is_open = record { channel = k.is_open.channel; state = refl };
              mirrors = k.mirrors;
            })
      | inr (l, led) ↦ rw (led, release_leader) (release-Tracks now c l led k)
    ]

    -- A named leader is given up by a member in the leader state only.
    named-Tracks :
        (now : ℕ) (name : String) (c : Cluster) (l : String) (s : Sate)
        → c.leader_node ≡ some l
        → not (str_eq l name) ≡ false
        → c.sate ≡ s
        → Tracks t0 c
        → Tracks t0 (release_with_node_name now name c)
    unfolding release_with_node_name
    named-Tracks now name c l Sate.leader led same e k =
        rw (led, same, e, release_with_node_name) (release-Tracks now c l led k)
    named-Tracks now name c l Sate.init led same e k = rw (led, same, e, release_with_node_name) k
    named-Tracks now name c l Sate.follower led same e k =
        rw (led, same, e, release_with_node_name) k
    named-Tracks now name c l Sate.candidate led same e k =
        rw (led, same, e, release_with_node_name) k
    named-Tracks now name c l Sate.closed led same e k = rw (led, same, e, release_with_node_name) k

    release_with_node_name-Tracks :
        (now : ℕ) (name : String) (c : Cluster)
        → Tracks t0 c
        → Tracks t0 (release_with_node_name now name c)
    unfolding release_with_node_name
    release_with_node_name-Tracks now name c k = elim (Option-cases c.leader_node) [
      | inl alone ↦ rw (alone, release_with_node_name) k
      | inr (l, led) ↦ elim (Bool-cases (not (str_eq l name))) [
        | inl other ↦ rw (led, other, release_with_node_name) k
        | inr same ↦ named-Tracks now name c l c.sate led same refl k
      ]
    ]

    -- Other events, and changes elsewhere in the state.
    quiet-Tracks :
        (name : EventName) (leader : String) (c : Cluster)
        → ((t : DefaultJobTracker C) → consume_event (event_of c (name, leader)) t ≡ t)
        → Tracks t0 c
        → Tracks t0 (create_event name leader c)
    quiet-Tracks name leader c quiet k =
        sent-Tracks t0 c c ((name, leader) ∷ []) k.is_open refl
          (subst (Mirrors (get_my_name c) c.leader_node) (sym (quiet (tracker t0 c))) k.mirrors)

  module _ (t0 : DefaultJobTracker C) where
    pub Change-Tracks : {c d : Cluster} → Change c d → Tracks t0 c → Tracks t0 d
    unfolding consume_event
    Change-Tracks {c} (signs now node term) k = sign_leader-Tracks t0 now node term c k
    Change-Tracks {c} (releases now) k = release_leader-Tracks t0 now c k
    Change-Tracks {c} (releases_named now name) k = release_with_node_name-Tracks t0 now name c k
    Change-Tracks {c} (starts_up l) k = quiet-Tracks t0 start_up l c (λ t. refl) k
    Change-Tracks {c} (starts_election l) k = quiet-Tracks t0 election_start l c (λ t. refl) k
    Change-Tracks {c} (ends_election l) k = quiet-Tracks t0 election_finish l c (λ t. refl) k
    Change-Tracks {c} (elsewhere d o name leader events) k = record {
      is_open = o;
      mirrors = rw (name, leader, events) k.mirrors;
    }

  Changes-Tracks :
      (t0 : DefaultJobTracker C) {c d : Cluster} → Changes c d → Tracks t0 c → Tracks t0 d
  Changes-Tracks t0 no_change k = k
  Changes-Tracks t0 (one_more r s) k = Change-Tracks t0 s (Changes-Tracks t0 r k)

  -- However the leader of a member changes that starts without one and is not closed, each change being
  -- made together with its events: a job tracker that is new when the member starts and gets
  -- all its events in order has, after the last of them, no live ticker if the member has no leader;
  -- exactly one, for the master's calls, if the member leads; and otherwise exactly one, for the slave's calls
  -- with the name of the present leader.
  pub tracker-Mirrors :
      (interval : ℤ) (callers : List C) {c d : Cluster}
      → IsOpen c
      → c.leader_node ≡ none
      → c.events ≡ []
      → Changes c d
      → Mirrors
          (get_my_name d)
          d.leader_node
          (consume_all d.events (new_job_tracker interval callers))
  unfolding new_job_tracker
  tracker-Mirrors interval callers {c} o alone none_sent changes =
      let t0 = new_job_tracker interval callers in
      (Changes-Tracks t0 changes
        (record { is_open = o; mirrors = rw (alone, none_sent) (refl, refl) })).mirrors
