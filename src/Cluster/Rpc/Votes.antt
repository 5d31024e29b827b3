-- ===== src/Cluster/Rpc/Votes.antt =====
-- What the handlers do to the votes and to the term of a member.
use common_tools.Prelude.{ℕ, ◌≡◌, ◌∙◌, ◌≤◌, true, Option, some, String, arith, refl, eq_iff}
use common_tools.Cluster.Node.{update_heartbeat}
use common_tools.Cluster.State.{Cluster, trigger_reconnect, get_my_name}
use common_tools.Cluster.Leader.{
  sign_leader, release_leader, sign_leader-Signs, release_leader-Releases,
}
use common_tools.Cluster.Rpc.{
  ask_vote, ask_leader, broadcast_leader, heartbeat, get_vote_node_name, vote_node, Request, serve,
  vote, leader, broadcast, beat,
}

-- A later state of the member: a vote once given stands.
pub record Later (c d : Cluster) : Type 0 where
  pub votes : (t : ℕ) {n : String} → c.votes_map t ≡ some n → d.votes_map t ≡ some n
  pub name : get_my_name d ≡ get_my_name c
  pub nodes : d.all_node ≡ c.all_node
  pub term : c.term ≤ d.term

pub Later-refl : (c : Cluster) → Later c c
Later-refl c = record { votes = λ t h. h; name = refl; nodes = refl; term = omega arith }

get_vote_node_name-Later : (t : ℕ) (n : String) (c : Cluster) → Later c (get_vote_node_name t n c).0
unfolding get_vote_node_name
get_vote_node_name-Later t n c = record {
  votes = λ u h. ground arith;
  name = ground arith;
  nodes = ground arith;
  term = ground arith;
}

pub vote_node-Later : (t : ℕ) (n : String) (c : Cluster) → Later c (vote_node t n c).0
unfolding vote_node
vote_node-Later t n c = record {
  votes = λ u h. ground arith;
  name = ground arith;
  nodes = ground arith;
  term = ground arith;
}

-- The vote that a member answers is the one on record, which its own vote respects too.
pub vote_node-voted :
    (t : ℕ) (n : String) (c : Cluster)
    → (vote_node t n c).1 ≡ true
    → (vote_node t n c).0.votes_map t ≡ some n
unfolding vote_node
vote_node-voted t n c h = grind (arith, eq_iff)

pub release_leader-Later : (now : ℕ) (c : Cluster) → Later c (release_leader now c)
release_leader-Later now c =
    let r = release_leader-Releases now c in
    record {
      votes = λ t h. ground (arith, r.votes);
      name = r.me;
      nodes = r.nodes;
      term = omega (arith, r);
    }

pub sign_leader-Later :
    (now : ℕ) (node : Option String) (t : ℕ) (c : Cluster) → Later c (sign_leader now node t c).0
sign_leader-Later now node t c =
    let r = sign_leader-Signs now node t c in
    record {
      votes = λ t h. ground (arith, r.votes);
      name = r.me;
      nodes = r.nodes;
      term = omega (arith, r);
    }

pub ask_vote-Later : (now t : ℕ) (n : String) (c : Cluster) → Later c (ask_vote now t n c).0
unfolding ask_vote
ask_vote-Later now t n c =
    let v = get_vote_node_name-Later t n c in
    let r = release_leader-Later now (get_vote_node_name t n c).0 in
    record {
      votes = λ u h. ground (arith, r.votes u (v.votes u h), v.votes u h);
      name = ground (arith, v.name, r.name);
      nodes = ground (arith, v.nodes, r.nodes);
      term = ground (arith, v.term, r.term);
    }

ask_leader-Later : (now t : ℕ) (n : String) (c : Cluster) → Later c (ask_leader now t n c).0
unfolding ask_leader trigger_reconnect
ask_leader-Later now t n c = record {
  votes = λ u h. ground arith;
  name = ground arith;
  nodes = ground arith;
  term = ground arith;
}

trigger_reconnect-Later : (c : Cluster) → Later c (trigger_reconnect c)
unfolding trigger_reconnect
trigger_reconnect-Later c = record {
  votes = λ u h. ground arith;
  name = ground arith;
  nodes = ground arith;
  term = ground arith;
}

pub Later-trans : {c d e : Cluster} → Later c d → Later d e → Later c e
Later-trans p q = record {
  votes = λ u h. q.votes u (p.votes u h);
  name = q.name ∙ p.name;
  nodes = q.nodes ∙ p.nodes;
  term = omega (arith, p.term, q.term);
}

broadcast_leader-Later :
    (now t : ℕ) (n : String) (c : Cluster) → Later c (broadcast_leader now t n c).0
unfolding broadcast_leader
broadcast_leader-Later now t n c =
    let far : (m : String) → Later c (sign_leader now (some m) t (trigger_reconnect c)).0 =
      λ m. Later-trans (trigger_reconnect-Later c) (sign_leader-Later now (some m) t _) in
    let own = sign_leader-Later now (some (get_my_name c)) t c in
    let near = sign_leader-Later now (some n) t c in
    record {
      votes = λ u h. ground (arith, (far n).votes u h, own.votes u h, near.votes u h);
      name = ground (arith, far n, own, near);
      nodes = ground (arith, far n, own, near);
      term = ground (arith, far n, own, near);
    }

heartbeat-Later : (now t : ℕ) (n : String) (c : Cluster) → Later c (heartbeat now t n c).0
unfolding heartbeat update_heartbeat
heartbeat-Later now t n c = record {
  votes = λ u h. ground arith;
  name = ground arith;
  nodes = ground arith;
  term = ground arith;
}

-- Whatever request a member serves: a vote that it gave stands, its term does not fall, and its
-- name and its list of nodes stay.
pub serve-Later : (now : ℕ) (r : Request) (c : Cluster) → Later c (serve now r c)
unfolding serve
serve-Later now (vote t n) c = ask_vote-Later now t n c
serve-Later now (leader t n) c = ask_leader-Later now t n c
serve-Later now (broadcast t n) c = broadcast_leader-Later now t n c
serve-Later now (beat t n) c = heartbeat-Later now t n c

get_vote_node_name-voted :
    (t : ℕ) (n : String) (c : Cluster)
    → (get_vote_node_name t n c).0.votes_map t ≡ some (get_vote_node_name t n c).1
unfolding get_vote_node_name
get_vote_node_name-voted t n c = ground arith

-- The vote that a member answers is the one that it keeps for that term.
pub ask_vote-voted :
    (now t : ℕ) (n : String) (c : Cluster)
    → (ask_vote now t n c).0.votes_map t ≡ some (ask_vote now t n c).1.vote_node_name
unfolding ask_vote
ask_vote-voted now t n c =
    let v = get_vote_node_name-voted t n c in
    let r = release_leader-Later now (get_vote_node_name t n c).0 in ground (arith, v, r.votes t v)
