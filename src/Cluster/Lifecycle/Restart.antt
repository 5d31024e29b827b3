-- ===== src/Cluster/Lifecycle/Restart.antt =====
-- What a closed member does, and one that is started again.
use common_tools.Prelude.{ℕ, ◌≡◌, ◌⊎◌, Bool, true, false, ◌||◌, none, [], ◌∷◌, ◌++◌, String}
use common_tools.Prelude.Run.{panic}
use common_tools.Cluster.State.{
  Cluster, Sate, Event, EventName, close, shut, is_closed, create_event,
}
use common_tools.Cluster.Leader.{release_leader}
use common_tools.Cluster.Connect.{Dialling}
use common_tools.Cluster.Lifecycle.{is_single, start_member, close_member}

-- Whatever the member creates as an event is dropped.
abbrev pub IsSilent : Cluster → Type 0
IsSilent c = (name : EventName) (leader : String) → create_event name leader c ≡ c

-- The member that `Close` leaves.
record Closed (now : ℕ) (c d : Cluster) : Type 0 where
  state : d.sate ≡ Sate.closed
  leader : d.leader_node ≡ none
  mode : d.mode ≡ c.mode
  marked : d.events_closed ≡ true
  channel : d.channel ≡ shut
  last_event :
      (closing : Event) × (closing.name ≡ close)
      × (d.events ≡ (release_leader now c).events ++ closing ∷ [])

-- How a member is after `Close` and `Start`: either it runs, but with the mark of the closed channel; or it could not listen, and
-- cannot be closed again.
abbrev pub Restarted : ℕ → ℕ → Bool → Dialling → Cluster → Cluster → Type 0
Restarted later last listens dial c down =
    let r = start_member later true listens dial down in
    (((is_single c || listens) ≡ true)
      × (r.1 ≡ true)
      × (is_closed r.0 ≡ false)
      × (r.0.events ≡ [])
      × IsSilent r.0)
    ⊎ (((is_single c || listens) ≡ false) × (r.1 ≡ false) × (close_member last true r.0 ≡ panic))
