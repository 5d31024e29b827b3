-- ===== src/Cluster/Scheduler/Mirror/Requests.antt =====
-- A job tracker follows its member through the requests it serves, and the steps of an election.
use common_tools.Prelude.{
  ℕ, ◌≡◌, inl, inr, refl, Bool, true, false, some, String, Bool-cases, Option-cases, ltb, arith,
  if◌then◌else◌,
}
use common_tools.Cluster.Node.{update_heartbeat, clean}
use common_tools.Cluster.State.{drops, Cluster, Sate, get_my_name, trigger_reconnect}
use common_tools.Cluster.Rpc.{
  Request, vote, leader, broadcast, beat, serve, vote_node, get_vote_node_name, ask_vote,
  ask_leader, broadcast_leader, heartbeat, find_leader,
}
use common_tools.Cluster.Connect.{Dialling, reconnect}
use common_tools.Cluster.Election.{finish}
use common_tools.Cluster.Election.Kept.{IsKept}
use common_tools.Cluster.Scheduler.{DefaultJobTracker}
use common_tools.Cluster.Scheduler.Mirror.Events.{Tracks}
use common_tools.Cluster.Scheduler.Mirror.Changes.{
  signs, releases, starts_election, ends_election, elsewhere, Change-Tracks,
}

module _ {C : Type 0} (t0 : DefaultJobTracker C) where
  -- An update that leaves the state, the name, the leader and the events alone.
  pub aside-Tracks :
      (c d : Cluster)
      → d.sate ≡ c.sate
      → drops d ≡ drops c
      → get_my_name d ≡ get_my_name c
      → d.leader_node ≡ c.leader_node
      → d.events ≡ c.events
      → Tracks t0 c
      → Tracks t0 d
  aside-Tracks c d s closed me led events k =
      let o = k.is_open in
      Change-Tracks t0
        (elsewhere d (record { channel = rw closed o.channel; state = rw s o.state }) me led events)
        k

  pub trigger_reconnect-Tracks : (c : Cluster) → Tracks t0 c → Tracks t0 (trigger_reconnect c)
  unfolding trigger_reconnect
  trigger_reconnect-Tracks c k =
      aside-Tracks c (trigger_reconnect c) (ground arith) (ground arith) (ground arith)
        (ground arith) (ground arith) k

  vote_node-Tracks :
      (t : ℕ) (n : String) (c : Cluster) → Tracks t0 c → Tracks t0 (vote_node t n c).0
  unfolding vote_node
  vote_node-Tracks t n c k =
      aside-Tracks c (vote_node t n c).0 (ground arith) (ground arith) (ground arith) (ground arith)
        (ground arith) k

  get_vote_node_name-Tracks :
      (t : ℕ) (n : String) (c : Cluster) → Tracks t0 c → Tracks t0 (get_vote_node_name t n c).0
  unfolding get_vote_node_name
  get_vote_node_name-Tracks t n c k =
      aside-Tracks c (get_vote_node_name t n c).0 (ground arith) (ground arith) (ground arith)
        (ground arith) (ground arith) k

  choose-Tracks :
      (b : Bool) (c d : Cluster) → Tracks t0 c → Tracks t0 d → Tracks t0 (if b then c else d)
  choose-Tracks true c d p q = p
  choose-Tracks false c d p q = q

  ask_vote-Tracks :
      (now t : ℕ) (n : String) (c : Cluster) → Tracks t0 c → Tracks t0 (ask_vote now t n c).0
  unfolding ask_vote
  ask_vote-Tracks now t n c k =
      let voted = get_vote_node_name-Tracks t n c k in
      choose-Tracks _ _ _ (Change-Tracks t0 (releases now) voted) voted

  ask_leader-Tracks :
      (now t : ℕ) (n : String) (c : Cluster) → Tracks t0 c → Tracks t0 (ask_leader now t n c).0
  unfolding ask_leader
  ask_leader-Tracks now t n c k = choose-Tracks _ _ _ k (trigger_reconnect-Tracks c k)

  broadcast_leader-Tracks :
      (now t : ℕ) (n : String) (c : Cluster)
      → Tracks t0 c
      → Tracks t0 (broadcast_leader now t n c).0
  unfolding broadcast_leader
  broadcast_leader-Tracks now t n c k = elim (Bool-cases (ltb t c.term)) [
    | inl stale ↦ rw (stale, broadcast_leader) k
    | inr current ↦ elim (Option-cases (find_leader n c)) [
      | inl unknown ↦ rw (current, unknown, broadcast_leader) k
      | inr ((node, lost), found) ↦
          rw (current, found, broadcast_leader)
            (Change-Tracks t0 (signs now (some node) t)
              (choose-Tracks lost (trigger_reconnect c) c (trigger_reconnect-Tracks c k) k))
    ]
  ]

  heartbeat-Tracks :
      (now t : ℕ) (n : String) (c : Cluster) → Tracks t0 c → Tracks t0 (heartbeat now t n c).0
  unfolding heartbeat update_heartbeat
  heartbeat-Tracks now t n c k =
      aside-Tracks c (heartbeat now t n c).0 (ground arith) (ground arith) (ground arith)
        (ground arith) (ground arith) k

  pub serve-Tracks : (now : ℕ) (r : Request) (c : Cluster) → Tracks t0 c → Tracks t0 (serve now r c)
  unfolding serve
  serve-Tracks now (vote t n) c k = ask_vote-Tracks now t n c k
  serve-Tracks now (leader t n) c k = ask_leader-Tracks now t n c k
  serve-Tracks now (broadcast t n) c k = broadcast_leader-Tracks now t n c k
  serve-Tracks now (beat t n) c k = heartbeat-Tracks now t n c k

  reconnect-Tracks : (dial : Dialling) (c : Cluster) → Tracks t0 c → Tracks t0 (reconnect dial c)
  unfolding reconnect
  reconnect-Tracks dial c k = aside-Tracks c (reconnect dial c) refl refl refl refl refl k

  candidate-Tracks : (c : Cluster) → Tracks t0 c → Tracks t0 (record c { sate = Sate.candidate })
  candidate-Tracks c k =
      Change-Tracks t0
        (elsewhere (record c { sate = Sate.candidate })
          (record { channel = k.is_open.channel; state = refl }) refl refl refl)
        k

  finish-Tracks : (c : Cluster) → Tracks t0 c → Tracks t0 (finish c)
  unfolding finish
  finish-Tracks c k =
      Change-Tracks t0
        (elsewhere (finish c)
          (record {
            channel = ground (arith, k.is_open.channel);
            state = ground (arith, k.is_open.state);
          })
          (ground arith) (ground arith) (ground arith))
        k

  -- What an election is made of keeps the tracker with its member.
  pub Tracks-IsKept : IsKept (λ c d. Tracks t0 c → Tracks t0 d)
  unfolding clean
  Tracks-IsKept = record {
    same = λ c k. k;
    chain = λ p q k. q (p k);
    serves = serve-Tracks;
    signs = λ now n t c k. Change-Tracks t0 (signs now n t) k;
    releases = λ now c k. Change-Tracks t0 (releases now) k;
    connects = reconnect-Tracks;
    opens = λ l c k. Change-Tracks t0 (starts_election l) k;
    closes = λ l c k. Change-Tracks t0 (ends_election l) k;
    raises = λ t c h k. aside-Tracks c (record c { term = t }) refl refl refl refl refl k;
    stands = λ c h k. candidate-Tracks c k;
    votes = vote_node-Tracks;
    ends = finish-Tracks;
    cleans =
        λ c k. aside-Tracks c (record c { cur_node = clean c.cur_node }) refl refl refl refl refl k;
  }
