-- ===== src/Cluster/Election.antt =====
-- cluster/cluster.go: one run of `fightingWithRetry`, the election. What the run cannot decide comes
-- in as data: the requests served while it sleeps or waits, what dialling the other nodes gives, the
-- times, and the answers that arrive. A loop takes one item of its list for each pass; when the list
-- ends, the run is still waiting.
pub mod Scan
pub mod Kept
pub mod Preserve
pub mod Won
use common_tools.Prelude.{
  ℕ, ◌+◌, Bool, true, false, not, ◌&&◌, ◌||◌, Option, none, some, List, [], ◌∷◌, ◌++◌, String,
  str_eq, ltb, leb, length, contains, if◌then◌else◌,
}
use common_tools.Cluster.Node.{clean}
use common_tools.Cluster.State.{
  Cluster, Sate, election_start, election_finish, get_my_name, get_leader_name, get_quorum,
  is_ready, is_closed, create_event,
}
use common_tools.Cluster.Leader.{sign_leader, release_leader}
use common_tools.Cluster.Connect.{Dialling, reconnect}
use common_tools.Cluster.Rpc.{AskVoteResponse, LeaderResponse, Request, serve, vote_node}

-- The requests that the member serves meanwhile, with their times.
abbrev pub serve_all : List (ℕ × Request) → Cluster → Cluster
serve_all [] c = c
serve_all ((now, r) ∷ rs) c = serve_all rs (serve now r c)

abbrev pub stop : ℕ → Cluster → Bool
stop now c = is_ready now c || is_closed c

-- One answer to `AskLeader`: the leader and the highest term so far, after it.
scan_step : LeaderResponse → String × ℕ → String × ℕ
scan_step m (leader, max_term) =
    if m.success && (not (str_eq m.leader_node_name "") && leb max_term m.term)
    then (m.leader_node_name, m.term)
    else if m.success && leb max_term m.term
    then (leader, m.term)
    else (leader, max_term)

unfoldable pub scan : List LeaderResponse → String × ℕ → String × ℕ
unfolding scan_step
scan [] acc = acc
scan (m ∷ ms) acc = scan ms (scan_step m acc)

-- How a pass of a loop, or the run, ends.
pub data Outcome : Type 0 where
  -- the run returns
  done : Outcome
  -- the first loop is left, to ask for votes
  campaign : Outcome
  -- the loop goes round again
  again : Outcome

pub record AskRound : Type 0 where
  pub served : List (ℕ × Request)
  pub now : ℕ
  pub dial : Dialling
  -- while the nodes are dialled
  pub during_dial : List (ℕ × Request)
  -- while the nodes are asked for the leader, the time after it, and the answers
  pub during_ask : List (ℕ × Request)
  pub asked_at : ℕ
  pub answers : List LeaderResponse

known_leader : String → Cluster → Option String
known_leader leader c =
    if contains leader c.alive_nodes
    then some leader
    else if str_eq leader (get_my_name c)
    then some leader
    else none

take_term : List LeaderResponse → ℕ → Cluster → Cluster × Outcome
take_term answers max_term c =
    if ltb (length answers) (get_quorum c)
    then (c, campaign)
    else if leb c.term max_term
    then (record c { term = max_term }, campaign)
    else (c, again)

-- The answers to `AskLeader` are in: sign the leader that they name, take over the term, or repeat.
unfoldable pub adopt : ℕ → List LeaderResponse → Cluster → Cluster × Outcome
unfolding known_leader take_term
adopt now answers c =
    let (leader, max_term) = scan answers ("", 0) in
    let signed = sign_leader now (known_leader leader c) max_term c in
    if not (str_eq leader "") && signed.1 then (signed.0, done) else take_term answers max_term c

unfoldable pub ask_pass : AskRound → Cluster → Cluster × Outcome
ask_pass r c0 =
    let c = serve_all r.served c0 in
    if stop r.now c
    then (c, done)
    else let c1 = reconnect r.dial (serve_all r.during_dial c) in
      if leb (get_quorum c1) (length c1.alive_nodes)
      then adopt r.asked_at r.answers (serve_all r.during_ask c1)
      else (c1, again)

abbrev pub retry : Outcome → Cluster → Cluster × Outcome → Cluster × Outcome
retry again c rest = rest
retry end c rest = (c, end)

unfoldable pub ask_loop : List AskRound → Cluster → Cluster × Outcome
ask_loop [] c = (c, again)
ask_loop (r ∷ rs) c = let (c', end) = ask_pass r c in retry end c' (ask_loop rs c')

-- `votesCount`, and `successCount`
unfoldable pub count_votes : String → List AskVoteResponse → ℕ
count_votes me [] = 1
count_votes me (m ∷ ms) =
    let n = count_votes me ms in if m.success && str_eq m.vote_node_name me then n + 1 else n

unfoldable pub count_acks : List LeaderResponse → ℕ
count_acks [] = 1
count_acks (m ∷ ms) = let n = count_acks ms in if m.success then n + 1 else n

pub record VoteRound : Type 0 where
  pub served : List (ℕ × Request)
  pub now : ℕ
  pub dial : Dialling
  -- while the nodes are dialled
  pub during_dial : List (ℕ × Request)
  -- while the votes are asked for, and the answers
  pub during_votes : List (ℕ × Request)
  pub votes : List AskVoteResponse
  -- while the leader is announced, and the answers
  pub during_acks : List (ℕ × Request)
  pub acks : List LeaderResponse
  pub signed_at : ℕ

-- The candidate counts its votes, announces itself, and signs itself as the leader.
unfoldable pub request_votes : VoteRound → ℕ → ℕ → Cluster → Cluster
request_votes r next_term quorum c0 =
    let c = serve_all r.during_votes c0 in
    if leb quorum (count_votes (get_my_name c0) r.votes)
    then (let c1 = serve_all r.during_acks c in
        if leb quorum (count_acks r.acks)
        then (sign_leader r.signed_at (some (get_my_name c1)) next_term c1).0
        else c1)
    else c

-- A follower stands for the term, if it has not voted for another node in it.
unfoldable pub stand : VoteRound → ℕ → ℕ → Cluster → Cluster
stand r next_term quorum c =
    let (voted, mine) = vote_node next_term (get_my_name c) (record c { sate = Sate.candidate }) in
    if mine then request_votes r next_term quorum voted else voted

unfoldable pub vote_pass : VoteRound → ℕ → Cluster → Cluster × Outcome
vote_pass r next_term c0 =
    let c = serve_all r.served c0 in
    if stop r.now c
    then (c, done)
    else let c1 = reconnect r.dial (serve_all r.during_dial c) in
      if leb (get_quorum c1) (length c1.alive_nodes)
      then (elim c1.sate [ Sate.follower ↦ stand r next_term (get_quorum c1) c1 | _ ↦ c1 ], done)
      else (c1, again)

unfoldable pub vote_loop : List VoteRound → ℕ → Cluster → Cluster × Outcome
vote_loop [] t c = (c, again)
vote_loop (r ∷ rs) t c = let (c', end) = vote_pass r t c in retry end c' (vote_loop rs t c')

-- The deferred end: a candidate that found no leader is a follower again. (The retry is another run.)
unfoldable pub finish : Cluster → Cluster
finish c = elim c.leader_node [
  | some _ ↦ c
  | none ↦ elim c.sate [ Sate.candidate ↦ record c { sate = Sate.follower } | _ ↦ c ]
]

pub record Run : Type 0 where
  pub start : ℕ
  pub asks : List AskRound
  pub rest_served : List (ℕ × Request)
  pub rest_now : ℕ
  pub votes : List VoteRound

-- The deferred end of the voting, then of the run; a run that still waits has no end.
close_run : Cluster × Outcome → Cluster × Outcome
close_run (c, again) = (c, again)
close_run (c, end) = (finish (create_event election_finish (get_leader_name c) c), done)

-- After the first loop: the next term, and the votes.
unfoldable pub call_votes : Run → Cluster → Cluster × Outcome
unfolding close_run
call_votes run c0 =
    let c = serve_all run.rest_served c0 in
    let next_term = c.term + 1 in
    if stop run.rest_now c
    then (finish c, done)
    else close_run (
        vote_loop run.votes next_term
          (create_event election_start "" (record c { term = next_term })))

unfoldable pub after_ask : Run → Cluster × Outcome → Cluster × Outcome
after_ask run (c, again) = (c, again)
after_ask run (c, done) = (finish c, done)
after_ask run (c, campaign) = call_votes run c

-- From the free flag `fightingState` to the end of the run, or to where it still waits (`again`).
unfoldable pub fighting : Run → Cluster → Cluster × Outcome
unfolding after_ask
fighting run c =
    if stop run.start c
    then (c, done)
    else after_ask run
        (ask_loop run.asks (release_leader run.start (record c { cur_node = clean c.cur_node })))
