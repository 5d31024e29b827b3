-- ===== src/Cluster/Election/Preserve.antt =====
-- An election run keeps the votes of the member, its term from falling, and the agreement of its
-- state with its leader.
use common_tools.Prelude.{ℕ, ◌≡◌, ◌≤◌, refl, Option, String, arith}
use common_tools.Cluster.Node.{clean}
use common_tools.Cluster.State.{
  Cluster, Sate, EventName, election_start, election_finish, get_my_name, create_event,
}
use common_tools.Cluster.Leader.{
  IsCoherent, sign_leader, release_leader, sign_leader-IsCoherent, release_leader-IsCoherent,
}
use common_tools.Cluster.Rpc.{Request, serve, vote_node}
use common_tools.Cluster.Rpc.Votes.{
  Later, Later-refl, Later-trans, serve-Later, vote_node-Later, sign_leader-Later,
  release_leader-Later,
}
use common_tools.Cluster.Rpc.Coherent.{serve-IsCoherent}
use common_tools.Cluster.Connect.{Dialling, reconnect}
use common_tools.Cluster.Election.{finish, Run, fighting}
use common_tools.Cluster.Election.Kept.{IsKept, fighting-Kept}

-- From `c` to `d` the votes stand, the term does not fall, and coherence is kept.
pub record Keeps (c d : Cluster) : Type 0 where
  pub later : Later c d
  pub coherent : IsCoherent c → IsCoherent d

Keeps-refl : (c : Cluster) → Keeps c c
Keeps-refl c = record { later = Later-refl c; coherent = λ v. v }

Keeps-trans : {c d e : Cluster} → Keeps c d → Keeps d e → Keeps c e
Keeps-trans p q = record {
  later = Later-trans p.later q.later;
  coherent = λ v. q.coherent (p.coherent v);
}

sign_leader-Keeps :
    (now : ℕ) (n : Option String) (t : ℕ) (c : Cluster) → Keeps c (sign_leader now n t c).0
sign_leader-Keeps now n t c = record {
  later = sign_leader-Later now n t c;
  coherent = sign_leader-IsCoherent now n t c;
}

-- An update that leaves votes, name, nodes, state and leader alone, and does not lower the term.
Keeps-of_same :
    (c d : Cluster)
    → d.votes_map ≡ c.votes_map
    → get_my_name d ≡ get_my_name c
    → d.all_node ≡ c.all_node
    → c.term ≤ d.term
    → d.sate ≡ c.sate
    → d.leader_node ≡ c.leader_node
    → Keeps c d
Keeps-of_same c d v m n t s l = record {
  later = record { votes = λ u h. ground arith; name = m; nodes = n; term = t };
  coherent = λ h. ground arith;
}

reconnect-Keeps : (dial : Dialling) (c : Cluster) → Keeps c (reconnect dial c)
unfolding reconnect
reconnect-Keeps dial c = Keeps-of_same c _ refl refl refl (omega arith) refl refl

create_event-Keeps : (n : EventName) (l : String) (c : Cluster) → Keeps c (create_event n l c)
unfolding create_event
create_event-Keeps n l c =
    Keeps-of_same c _ (ground arith) (ground arith) (ground arith) (ground arith) (ground arith)
      (ground arith)

release_leader-Keeps : (now : ℕ) (c : Cluster) → Keeps c (release_leader now c)
release_leader-Keeps now c = record {
  later = release_leader-Later now c;
  coherent = λ v. release_leader-IsCoherent now c;
}

set_term-Keeps : (t : ℕ) (c : Cluster) → c.term ≤ t → Keeps c (record c { term = t })
set_term-Keeps t c h = Keeps-of_same c _ refl refl refl h refl refl

candidate-Keeps :
    (c : Cluster) → c.sate ≡ Sate.follower → Keeps c (record c { sate = Sate.candidate })
candidate-Keeps c h = record {
  later = record { votes = λ u k. k; name = refl; nodes = refl; term = omega arith };
  coherent = λ v. ground arith;
}

vote_node-Keeps : (t : ℕ) (n : String) (c : Cluster) → Keeps c (vote_node t n c).0
unfolding vote_node
vote_node-Keeps t n c = record { later = vote_node-Later t n c; coherent = λ v. ground arith }

finish-Keeps : (c : Cluster) → Keeps c (finish c)
unfolding finish
finish-Keeps c = record {
  later = record {
    votes = λ u h. ground arith;
    name = ground arith;
    nodes = ground arith;
    term = ground arith;
  };
  coherent = λ v. ground arith;
}

clean-Keeps : (c : Cluster) → Keeps c (record c { cur_node = clean c.cur_node })
unfolding clean
clean-Keeps c = Keeps-of_same c _ refl refl refl (omega arith) refl refl

serve-Keeps : (now : ℕ) (r : Request) (c : Cluster) → Keeps c (serve now r c)
serve-Keeps now r c = record { later = serve-Later now r c; coherent = serve-IsCoherent now r c }

Keeps-IsKept : IsKept Keeps
Keeps-IsKept = record {
  same = Keeps-refl;
  chain = Keeps-trans;
  serves = serve-Keeps;
  signs = sign_leader-Keeps;
  releases = release_leader-Keeps;
  connects = reconnect-Keeps;
  opens = create_event-Keeps election_start;
  closes = create_event-Keeps election_finish;
  raises = set_term-Keeps;
  stands = candidate-Keeps;
  votes = vote_node-Keeps;
  ends = finish-Keeps;
  cleans = clean-Keeps;
}

-- A run of an election, whatever it meets: the votes that the member gave stand, its term does not
-- fall, its name and nodes stay, and if its state and leader agreed before they agree after.
pub fighting-Keeps : (run : Run) (c : Cluster) → Keeps c (fighting run c).0
fighting-Keeps = fighting-Kept Keeps-IsKept
