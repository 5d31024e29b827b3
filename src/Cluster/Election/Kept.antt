-- ===== src/Cluster/Election/Kept.antt =====
-- What every part of an election keeps, an election keeps.
use common_tools.Prelude.{
  ℕ, ◌+◌, ◌≡◌, ◌≤◌, refl, Bool, true, false, Option, List, [], ◌∷◌, String, arith, Bool-cases, inl,
  inr, leb, ltb, length, if◌then◌else◌,
}
use common_tools.Cluster.Node.{clean}
use common_tools.Cluster.State.{
  Cluster, Sate, election_start, election_finish, get_my_name, create_event, get_quorum,
}
use common_tools.Cluster.Leader.{sign_leader, release_leader}
use common_tools.Cluster.Rpc.{Request, serve, vote_node, LeaderResponse}
use common_tools.Cluster.Connect.{Dialling, reconnect}
use common_tools.Cluster.Election.{
  serve_all, stop, scan, Outcome, done, campaign, again, AskRound, adopt, ask_pass, ask_loop, retry,
  take_term, VoteRound, request_votes, stand, vote_pass, vote_loop, finish, Run, close_run,
  call_votes, after_ask, fighting, count_votes, count_acks,
}

-- A relation between the states of a member before and after: what a run of an election is made of
-- keeps it.
pub record IsKept (R : Cluster → Cluster → Type 0) : Type 0 where
  pub same : (c : Cluster) → R c c
  pub chain : {c d e : Cluster} → R c d → R d e → R c e
  pub serves : (now : ℕ) (r : Request) (c : Cluster) → R c (serve now r c)
  pub signs : (now : ℕ) (n : Option String) (t : ℕ) (c : Cluster) → R c (sign_leader now n t c).0
  pub releases : (now : ℕ) (c : Cluster) → R c (release_leader now c)
  pub connects : (dial : Dialling) (c : Cluster) → R c (reconnect dial c)
  pub opens : (l : String) (c : Cluster) → R c (create_event election_start l c)
  pub closes : (l : String) (c : Cluster) → R c (create_event election_finish l c)
  pub raises : (t : ℕ) (c : Cluster) → c.term ≤ t → R c (record c { term = t })
  pub stands : (c : Cluster) → c.sate ≡ Sate.follower → R c (record c { sate = Sate.candidate })
  pub votes : (t : ℕ) (n : String) (c : Cluster) → R c (vote_node t n c).0
  pub ends : (c : Cluster) → R c (finish c)
  pub cleans : (c : Cluster) → R c (record c { cur_node = clean c.cur_node })

module _ {R : Cluster → Cluster → Type 0} (k : IsKept R) where
  serve_all-Kept : (rs : List (ℕ × Request)) (c : Cluster) → R c (serve_all rs c)
  serve_all-Kept [] c = k.same c
  serve_all-Kept ((now, r) ∷ rs) c = k.chain (k.serves now r c) (serve_all-Kept rs (serve now r c))

  take_term-Kept :
      (answers : List LeaderResponse) (m : ℕ) (c : Cluster) → R c (take_term answers m c).0
  unfolding take_term
  take_term-Kept answers m c = elim (Bool-cases (ltb (length answers) (get_quorum c))) [
    | inl few ↦ rw few (k.same c)
    | inr enough ↦ elim (Bool-cases (leb c.term m)) [
      | inl up ↦ rw (enough, up) (k.raises m c (ground arith))
      | inr ahead ↦ rw (enough, ahead) (k.same c)
    ]
  ]

  adopt-Kept : (now : ℕ) (answers : List LeaderResponse) (c : Cluster) → R c (adopt now answers c).0
  unfolding adopt
  adopt-Kept now answers c =
      go _ _ (k.signs now _ _ c) (take_term-Kept answers (scan answers ("", 0)).1 c)
    where
      go :
          (b : Bool) {d : Cluster} (rest : Cluster × Outcome)
          → R c d
          → R c rest.0
          → R c (if b then (d, done) else rest).0
      go true rest p q = p
      go false rest p q = q

  connects_on :
      {c d : Cluster} (rs : List (ℕ × Request)) (dial : Dialling)
      → R c d
      → R c (reconnect dial (serve_all rs d))
  connects_on rs dial h = k.chain h (k.chain (serve_all-Kept rs _) (k.connects dial _))

  ask_pass-Kept : (r : AskRound) (c : Cluster) → R c (ask_pass r c).0
  unfolding ask_pass
  ask_pass-Kept r c0 =
      let c = serve_all r.served c0 in
      let c1 = reconnect r.dial (serve_all r.during_dial c) in
      let served = serve_all-Kept r.served c0 in
      let connected = connects_on r.during_dial r.dial served in
      let asked = k.chain connected (serve_all-Kept r.during_ask c1) in
      let adopted = k.chain asked (adopt-Kept r.asked_at r.answers _) in
      elim (Bool-cases (stop r.now c)) [
        | inl halt ↦ rw halt served
        | inr go ↦ elim (Bool-cases (leb (get_quorum c1) (length c1.alive_nodes))) [
          | inl enough ↦ rw (go, enough) adopted
          | inr few ↦ rw (go, few) connected
        ]
      ]

  retry-Kept :
      {c d : Cluster} (o : Outcome) (more : Cluster × Outcome)
      → R c d
      → R d more.0
      → R c (retry o d more).0
  retry-Kept again more p q = k.chain p q
  retry-Kept done more p q = p
  retry-Kept campaign more p q = p

  ask_loop-Kept : (rs : List AskRound) (c : Cluster) → R c (ask_loop rs c).0
  unfolding ask_loop
  ask_loop-Kept [] c = k.same c
  ask_loop-Kept (r ∷ rs) c =
      retry-Kept (ask_pass r c).1 _ (ask_pass-Kept r c) (ask_loop-Kept rs (ask_pass r c).0)

  request_votes-Kept : (r : VoteRound) (t q : ℕ) (c : Cluster) → R c (request_votes r t q c)
  unfolding request_votes
  request_votes-Kept r t q c0 =
      let asked = serve_all-Kept r.during_votes c0 in
      let told = k.chain asked (serve_all-Kept r.during_acks _) in
      let signed = k.chain told (k.signs r.signed_at _ t _) in
      elim (Bool-cases (leb q (count_votes (get_my_name c0) r.votes))) [
        | inl won ↦ elim (Bool-cases (leb q (count_acks r.acks))) [
          | inl heard ↦ rw (won, heard) signed
          | inr few ↦ rw (won, few) told
        ]
        | inr lost ↦ rw lost asked
      ]

  -- The candidacy: from a follower on.
  stand-Kept :
      (r : VoteRound) (t q : ℕ) (c : Cluster) → c.sate ≡ Sate.follower → R c (stand r t q c)
  unfolding stand
  stand-Kept r t q c h =
      let voted = k.chain (k.stands c h) (k.votes t (get_my_name c) _) in
      elim (Bool-cases (vote_node t (get_my_name c) (record c { sate = Sate.candidate })).1) [
        | inl mine ↦ rw mine (k.chain voted (request_votes-Kept r t q _))
        | inr other ↦ rw other voted
      ]

  vote_pass-Kept : (r : VoteRound) (t : ℕ) (c : Cluster) → R c (vote_pass r t c).0
  unfolding vote_pass
  vote_pass-Kept r t c0 =
      let c = serve_all r.served c0 in
      let c1 = reconnect r.dial (serve_all r.during_dial c) in
      let served = serve_all-Kept r.served c0 in
      let connected = connects_on r.during_dial r.dial served in
      elim (Bool-cases (stop r.now c)) [
        | inl halt ↦ rw halt served
        | inr go ↦ elim (Bool-cases (leb (get_quorum c1) (length c1.alive_nodes))) [
          | inl enough ↦ rw (go, enough) (k.chain connected (if_follower c1 c1.sate refl))
          | inr few ↦ rw (go, few) connected
        ]
      ]
    where
      if_follower :
          (d : Cluster) (s : Sate)
          → d.sate ≡ s
          → R d (elim s [ Sate.follower ↦ stand r t (get_quorum d) d | _ ↦ d ])
      if_follower d Sate.follower e = stand-Kept r t (get_quorum d) d e
      if_follower d other e = k.same d

  vote_loop-Kept : (rs : List VoteRound) (t : ℕ) (c : Cluster) → R c (vote_loop rs t c).0
  unfolding vote_loop
  vote_loop-Kept [] t c = k.same c
  vote_loop-Kept (r ∷ rs) t c =
      retry-Kept (vote_pass r t c).1 _ (vote_pass-Kept r t c) (vote_loop-Kept rs t _)

  close_run-Kept : {c : Cluster} (o : Cluster × Outcome) → R c o.0 → R c (close_run o).0
  unfolding close_run
  close_run-Kept (d, again) h = h
  close_run-Kept (d, done) h = k.chain (k.chain h (k.closes _ d)) (k.ends _)
  close_run-Kept (d, campaign) h = k.chain (k.chain h (k.closes _ d)) (k.ends _)

  call_votes-Kept : (run : Run) (c : Cluster) → R c (call_votes run c).0
  unfolding call_votes
  call_votes-Kept run c0 =
      let c = serve_all run.rest_served c0 in
      let served = serve_all-Kept run.rest_served c0 in
      let termed = k.chain served (k.raises (c.term + 1) c (omega arith)) in
      let begun = k.chain termed (k.opens "" _) in
      let voted = k.chain begun (vote_loop-Kept run.votes (c.term + 1) _) in
      elim (Bool-cases (stop run.rest_now c)) [
        | inl halt ↦ rw halt (k.chain served (k.ends c))
        | inr go ↦ rw go (close_run-Kept _ voted)
      ]

  after_ask-Kept :
      {c : Cluster} (run : Run) (o : Cluster × Outcome) → R c o.0 → R c (after_ask run o).0
  unfolding after_ask
  after_ask-Kept run (d, again) h = h
  after_ask-Kept run (d, done) h = k.chain h (k.ends d)
  after_ask-Kept run (d, campaign) h = k.chain h (call_votes-Kept run d)

  -- A run of an election.
  pub fighting-Kept : (run : Run) (c : Cluster) → R c (fighting run c).0
  unfolding fighting
  fighting-Kept run c =
      let idle = k.chain (k.cleans c) (k.releases run.start _) in
      let asked = k.chain idle (ask_loop-Kept run.asks _) in
      elim (Bool-cases (stop run.start c)) [
        | inl halt ↦ rw halt (k.same c)
        | inr go ↦ rw go (after_ask-Kept run _ asked)
      ]
