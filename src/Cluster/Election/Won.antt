-- ===== src/Cluster/Election/Won.antt =====
-- When a candidate signs itself as the leader, and how a run ends.
use common_tools.Prelude.{
  ℕ, ◌+◌, ◌≡◌, ◌≤◌, ◌<◌, ◌≢◌, ◌⊎◌, inl, inr, refl, Bool, true, false, none, some, String, arith,
  eq_iff, Bool-cases, leb, lt→ltb, if◌then◌else◌,
}
use native.Mathlib.Decide.{dec_lt}
use common_tools.Cluster.Node.{clean}
use common_tools.Cluster.State.{
  Cluster, Sate, get_my_name, create_event, is_ready, election_start, get_leader_name,
}
use common_tools.Cluster.Leader.{sign_leader, release_leader}
use common_tools.Cluster.Election.{
  serve_all, count_votes, count_acks, VoteRound, request_votes, finish, Run, fighting, done,
  campaign, again, Outcome, stop, ask_loop, after_ask, call_votes, close_run, vote_loop,
}

-- The member while it waits for its votes, and then for the acknowledgements.
abbrev pub voted : VoteRound → Cluster → Cluster
voted r c = serve_all r.during_votes c

abbrev pub announced : VoteRound → Cluster → Cluster
announced r c = serve_all r.during_acks (voted r c)

-- The candidate has signed itself: it has a quorum of votes, its own counted, and of
-- acknowledgements; it is the leader that it knows, in the state of a leader, at the term of the vote.
pub record SignedBy (r : VoteRound) (t quorum : ℕ) (c d : Cluster) : Type 0 where
  pub votes : quorum ≤ count_votes (get_my_name c) r.votes
  pub acks : quorum ≤ count_acks r.acks
  pub current : (announced r c).term ≤ t
  pub leader : d.leader_node ≡ some (get_my_name (announced r c))
  pub sate : d.sate ≡ Sate.leader
  pub term : d.term ≡ t

-- Too few votes: nothing beyond the requests served meanwhile.
pub record Outvoted (r : VoteRound) (quorum : ℕ) (c d : Cluster) : Type 0 where
  pub votes : count_votes (get_my_name c) r.votes < quorum
  pub same : d ≡ voted r c

-- Enough votes, and too few acknowledgements or a newer term by now.
pub record Unheard (r : VoteRound) (t quorum : ℕ) (c d : Cluster) : Type 0 where
  pub votes : quorum ≤ count_votes (get_my_name c) r.votes
  pub acks : (count_acks r.acks < quorum) ⊎ (t < (announced r c).term)
  pub same : d ≡ announced r c

signed_behind :
    (now t : ℕ) (n : String) (c : Cluster) → t < c.term → (sign_leader now (some n) t c).0 ≡ c
unfolding sign_leader
signed_behind now t n c h = rw (lt→ltb t c.term h)

signed_self :
    (now t : ℕ) (c : Cluster)
    → c.term ≤ t
    → let d = (sign_leader now (some (get_my_name c)) t c).0 in
      (d.leader_node ≡ some (get_my_name c)) × (d.sate ≡ Sate.leader) × (d.term ≡ t)
unfolding sign_leader create_event
signed_self now t c h = ground (arith, eq_iff (get_my_name c) (get_my_name c))

-- A vote ends in one of three ways, and each is told by the counts and the term: the candidate is
-- outvoted; or it is not acknowledged, or overtaken by a newer term; or it has a quorum of votes and of
-- acknowledgements, and is the leader of the term.
pub request_votes_lem :
    (r : VoteRound) (t quorum : ℕ) (c : Cluster)
    → let d = request_votes r t quorum c in
      Outvoted r quorum c d ⊎ (Unheard r t quorum c d ⊎ SignedBy r t quorum c d)
unfolding request_votes
request_votes_lem r t q c = elim (Bool-cases (leb q (count_votes (get_my_name c) r.votes))) [
  | inr lost ↦ inl (record { votes = ground arith; same = rw lost })
  | inl won ↦ elim (Bool-cases (leb q (count_acks r.acks))) [
    | inr few ↦
        inr (inl (record { votes = ground arith; acks = inl (ground arith); same = rw (won, few) }))
    | inl heard ↦ elim (dec_lt t (announced r c).term) [
      | yes late ↦ inr (
          inl (record {
            votes = ground arith;
            acks = inr late;
            same = rw (won, heard) (signed_behind r.signed_at t _ (announced r c) late);
          }))
      | no fresh ↦
          let signed = signed_self r.signed_at t (announced r c) (omega arith) in
          inr (
            inr (record {
              votes = ground arith;
              acks = ground arith;
              current = omega arith;
              leader = rw (won, heard) signed.0;
              sate = rw (won, heard) signed.1;
              term = rw (won, heard) signed.2;
            }))
    ]
  ]
]

finish_lem : (c : Cluster) → (finish c).leader_node ≡ none → (finish c).sate ≢ Sate.candidate
unfolding finish
finish_lem c h = ground arith

-- Without a leader, no candidate.
abbrev Settled : Cluster → Type 0
Settled c = c.leader_node ≡ none → c.sate ≢ Sate.candidate

stop-Settled : (now : ℕ) (c : Cluster) → stop now c ≡ true → Settled c
unfolding is_ready
stop-Settled now c e h =
    let unnamed : get_leader_name c ≡ "" = rw h in
    ground (arith, unnamed, eq_iff (get_leader_name c) "")

close_run-Settled : (o : Cluster × Outcome) → (close_run o).1 ≡ done → Settled (close_run o).0
unfolding close_run
close_run-Settled (c, again) d = absurd (ground arith)
close_run-Settled (c, done) d = finish_lem _
close_run-Settled (c, campaign) d = finish_lem _

call_votes-Settled :
    (run : Run) (c : Cluster) → (call_votes run c).1 ≡ done → Settled (call_votes run c).0
unfolding call_votes
call_votes-Settled run c = elim (Bool-cases (stop run.rest_now (serve_all run.rest_served c))) [
  | inl halt ↦ rw halt (λ _. finish_lem _)
  | inr go ↦
      let d = serve_all run.rest_served c in
      let begun = create_event election_start "" (record d { term = d.term + 1 }) in
      rw go (close_run-Settled (vote_loop run.votes (d.term + 1) begun))
]

after_ask-Settled :
    (run : Run) (o : Cluster × Outcome) → (after_ask run o).1 ≡ done → Settled (after_ask run o).0
unfolding after_ask
after_ask-Settled run (c, again) d = absurd (ground arith)
after_ask-Settled run (c, done) d = finish_lem c
after_ask-Settled run (c, campaign) d = call_votes-Settled run c d

-- A run that ends leaves no candidate behind: without a leader the member is not in the candidate
-- state, from whatever state the run began.
pub fighting_end :
    (run : Run) (c : Cluster)
    → (fighting run c).1 ≡ done
    → (fighting run c).0.leader_node ≡ none
    → (fighting run c).0.sate ≢ Sate.candidate
unfolding fighting
fighting_end run c = if_stopped (stop run.start c) refl _ (
    after_ask-Settled run
      (ask_loop run.asks (release_leader run.start (record c { cur_node = clean c.cur_node }))))
  where
    if_stopped :
        (b : Bool)
        → stop run.start c ≡ b
        → (o : Cluster × Outcome) → (o.1 ≡ done → Settled o.0)
        → (if b then (c, done) else o).1 ≡ done
        → Settled (if b then (c, done) else o).0
    if_stopped true e o p d = stop-Settled run.start c e
    if_stopped false e o p d = p d
