-- ===== src/Cluster/Heartbeat/Quorum.antt =====
-- A leader that the quorum does not hear steps down.
use native.Mathlib.Decide.{dec_lt}
use common_tools.Prelude.{
  ℕ, suc, ◌+◌, ◌≡◌, ◌≤◌, ◌<◌, sym, subst, true, none, List, [], ◌∷◌, eq_iff, arith, take, length,
  All,
}
use common_tools.Cluster.State.{
  Cluster, Sate, get_my_name, get_quorum, trigger_reconnect, create_event,
}
use common_tools.Cluster.Leader.{IsCoherent, release_with_node_name}
use common_tools.Cluster.Heartbeat.{Beat, Pulse, insufficient, heartbeat_tick, heartbeat_loop}

-- A tick at which the leader `c` hears too few nodes.
abbrev pub Unheard : Cluster → Beat → Type 0
Unheard c b = (b.streams ≡ true) × (insufficient c b ≡ true)

-- The third failure in a row: the leader gives itself up.
third_failure :
    (b : Beat) (p : Pulse)
    → IsCoherent p.member
    → p.member.sate ≡ Sate.leader
    → p.failures ≡ 2
    → Unheard p.member b
    → ((heartbeat_tick b p).member.sate ≡ Sate.follower)
      × ((heartbeat_tick b p).member.leader_node ≡ none)
unfolding heartbeat_tick trigger_reconnect release_with_node_name create_event
third_failure b p v leads two (there, few) =
    ground (arith, v.leads leads, eq_iff (get_my_name p.member) (get_my_name p.member))

-- A failure before it is only counted.
early_failure :
    (b : Beat) (p : Pulse)
    → p.member.sate ≡ Sate.leader
    → p.failures < 2
    → Unheard p.member b
    → heartbeat_tick b p ≡ record p {
      member = record p.member { reconnect_pending = true };
      failures = p.failures + 1;
    }
unfolding heartbeat_tick trigger_reconnect
early_failure b p leads few_failures (there, few) = ground arith

-- The member has given up its lead.
abbrev pub SteppedDown : Cluster → Type 0
SteppedDown c = (c.sate ≡ Sate.follower) × (c.leader_node ≡ none)

-- A leader hears fewer nodes than the quorum needs at enough ticks in a row, three for a loop that has
-- counted no failure: it gives itself up at one of these ticks.
pub leader-SteppedDown :
    (bs : List Beat) (p : Pulse)
    → IsCoherent p.member
    → p.member.sate ≡ Sate.leader
    → p.failures < 3
    → 3 ≤ p.failures + length bs
    → All (Unheard p.member) bs
    → (n : ℕ) × (n ≤ length bs) × SteppedDown (heartbeat_loop (take n bs) p).member
unfolding heartbeat_loop get_quorum
leader-SteppedDown [] p v leads few enough all = absurd (omega arith)
leader-SteppedDown (b ∷ bs) p v leads few enough (unheard, all) = elim (dec_lt p.failures 2) [
  | no third ↦ (1, omega arith, third_failure b p v leads (omega arith) unheard)
  | yes early ↦
      let q : Pulse = record p {
        member = record p.member { reconnect_pending = true };
        failures = p.failures + 1;
      } in
      let counted : heartbeat_tick b p ≡ q = early_failure b p leads early unheard in
      let still : IsCoherent q.member = record { leads = v.leads; led = v.led } in
      let (n, fits, down) = leader-SteppedDown bs q still leads (omega arith) (omega arith) all in
      (
        suc n,
        omega arith,
        subst (λ r. SteppedDown (heartbeat_loop (take n bs) r).member) (sym counted) down,
      )
]
