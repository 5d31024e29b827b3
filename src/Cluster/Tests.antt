-- ===== src/Cluster/Tests.antt =====
-- Runs of the cluster's model, and its theorems at concrete members.
use common_tools.Prelude.{
  str_eq, ℕ, ◌≡◌, ◌≢◌, ◌⊎◌, refl, true, false, none, some, List, [], ◌∷◌, String, arith, contains,
  All,
}
use common_tools.Cluster.Node.{is_node_healthy, clean}
use common_tools.Cluster.State.{made, Cluster, Mode, Sate, is_ready, get_quorum, create_event}
use common_tools.Cluster.Leader.{IsCoherent, sign_leader, release_leader}
use common_tools.Cluster.Rpc.{
  AskVoteResponse, LeaderResponse, vote, ask_vote, serve, vote_node, get_vote_node_name,
}
use common_tools.Cluster.Rpc.Votes.{Later, serve-Later}
use common_tools.Cluster.Connect.{connected, failed, Dialling, reconnect}
use common_tools.Cluster.Election.{
  scan, adopt, VoteRound, Run, request_votes, fighting, ask_pass, ask_loop, vote_pass, vote_loop,
  stand, call_votes, finish, count_votes, count_acks,
}
use common_tools.Cluster.Election.Preserve.{Keeps, fighting-Keeps}
use common_tools.Cluster.Election.Scan.{Below, adopt-campaign}
use common_tools.Cluster.Election.Won.{Outvoted, Unheard, SignedBy, request_votes_lem, fighting_end}
use common_tools.Cluster.Safety.{Network, Reach, here, next, answer, self, Wins, election_safety}

abbrev nodes : List String
nodes = "a" ∷ "b" ∷ "c" ∷ []

-- A member that has just started.
abbrev fresh : String → Cluster
fresh name = record {
  mode = Mode.cluster;
  timeout = 5;
  cur_node = record {
    name = name;
    heartbeat = none;
    last_heartbeat_ok = true;
    heartbeat_failures = 0;
  };
  leader_node = none;
  lost_leader_time = none;
  all_node = nodes;
  alive_nodes = name ∷ [];
  term = 0;
  sate = Sate.follower;
  votes_map = λ t. none;
  events = [];
  channel = made;
  events_closed = false;
  reconnect_pending = false;
}

abbrev ballot : String → AskVoteResponse
ballot n = record { node_name = n; term = 1; vote_node_name = "a"; success = true }

abbrev ack : String → ℕ → String → LeaderResponse
ack n t l = record { node_name = n; term = t; leader_node_name = l; success = true }

abbrev dialling : Dialling
dialling = record { has_client = λ n. false; result = λ n. connected }

-- A live node without a client that cannot be reached is alive no more.
unreachable :
    (reconnect
      (record { has_client = λ n. str_eq n "c"; result = λ n. failed })
      (record (fresh "a") { alive_nodes = nodes })).alive_nodes
    ≡ "a" ∷ "c" ∷ []
unfolding reconnect contains
unreachable = refl

abbrev vote_round : VoteRound
vote_round = record {
  served = [];
  now = 102;
  dial = dialling;
  during_dial = [];
  during_votes = [];
  votes = ballot "b" ∷ [];
  during_acks = [];
  acks = ack "b" 1 "a" ∷ [];
  signed_at = 103;
}

-- "a" finds two nodes without a leader, takes a vote and an acknowledgement from "b", and leads.
abbrev election : Run
election = record {
  start = 100;
  asks =
      record {
        served = [];
        now = 101;
        dial = dialling;
        during_dial = [];
        during_ask = [];
        asked_at = 101;
        answers = ack "b" 0 "" ∷ ack "c" 0 "" ∷ [];
      }
      ∷ [];
  rest_served = [];
  rest_now = 102;
  votes = vote_round ∷ [];
}

election_leads :
    let c = (fighting election (fresh "a")).0 in
    (c.sate ≡ Sate.leader) × (c.leader_node ≡ some "a") × (c.term ≡ 1) × (c.votes_map 1 ≡ some "a")
unfolding fighting ask_loop ask_pass adopt reconnect scan vote_loop vote_pass stand call_votes
    finish request_votes count_votes count_acks vote_node sign_leader release_leader create_event
    is_ready is_node_healthy clean get_quorum contains
election_leads = (refl, refl, refl, refl)

fighting-Keeps_example : Keeps (fresh "a") (fighting election (fresh "a")).0
fighting-Keeps_example = fighting-Keeps election (fresh "a")

fighting_end_example :
    (fighting (record election { votes = [] }) (record (fresh "a") { sate = Sate.closed })).0.sate
    ≢ Sate.candidate
unfolding fighting is_ready
fighting_end_example =
    fighting_end (record election { votes = [] }) (record (fresh "a") { sate = Sate.closed }) refl
      refl

request_votes_lem_example :
    let d = request_votes vote_round 1 2 (fresh "a") in
    Outvoted vote_round 2 (fresh "a") d
    ⊎ (Unheard vote_round 1 2 (fresh "a") d ⊎ SignedBy vote_round 1 2 (fresh "a") d)
request_votes_lem_example = request_votes_lem vote_round 1 2 (fresh "a")

adopt-campaign_example :
    All
      (Below (adopt 101 (ack "b" 3 "" ∷ ack "c" 7 "" ∷ []) (fresh "a")).0.term)
      (ack "b" 3 "" ∷ ack "c" 7 "" ∷ [])
unfolding adopt scan get_quorum sign_leader contains
adopt-campaign_example =
    adopt-campaign 101 (ack "b" 3 "" ∷ ack "c" 7 "" ∷ []) (fresh "a") (omega arith) refl

serve-Later_example : Later (fresh "b") (serve 7 (vote 1 "a") (fresh "b"))
serve-Later_example = serve-Later 7 (vote 1 "a") (fresh "b")

fresh-IsCoherent : IsCoherent (fresh "b")
fresh-IsCoherent = ground arith

abbrev start : Network
start = record { member = fresh; granted = [] }

-- "a" votes for itself, and "b" votes for it.
two_votes : (s : Network) × Reach start s × Wins nodes s 1 "a"
unfolding vote_node ask_vote get_vote_node_name release_leader is_ready is_node_healthy get_quorum
    contains
two_votes = (
  _,
  next (next here (self 1 "a" refl)) (answer 7 1 "b" "a" refl),
  record {
    voters = "a" ∷ "b" ∷ [];
    distinct = (refl, (refl, tt));
    within = (refl, (refl, tt));
    knows = refl;
    enough = omega arith;
    votes = (refl, (refl, tt));
  },
)

election_safety_example : ◌≡◌ {A = String} "a" "a"
election_safety_example =
    election_safety nodes fresh two_votes.1 here 1 "a" "a" two_votes.2 two_votes.2
