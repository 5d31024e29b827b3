-- ===== src/Cluster/Safety.antt =====
-- Election safety: the members of a cluster as a network, in which votes are asked and answered in
-- any order, lost or late, between any other operations of the members.
use common_tools.Prelude.{
  ℕ, ◌+◌, ◌≡◌, ◌≤◌, ◌<◌, inl, inr, subst, ap, Bool, true, false, ◌&&◌, ◌||◌, some, List, [], ◌∷◌,
  String, str_eq, eq_iff, arith, length, All, contains, Distinct, Within, common_name,
  if◌then◌else◌, Bool-cases, ◌==◌,
}
use common_tools.Cluster.State.{Cluster, get_quorum}
use common_tools.Cluster.Rpc.{ask_vote, vote_node}
use common_tools.Cluster.Rpc.Votes.{
  Later, ask_vote-Later, ask_vote-voted, vote_node-Later, vote_node-voted,
}

-- A vote that counts for its candidate: an answer to `AskVote` that the candidate counts, or its
-- own vote.
pub record Grant : Type 0 where
  pub term : ℕ
  pub voter : String
  pub candidate : String

-- The members by name, and the votes granted so far.
pub record Network : Type 0 where
  pub member : String → Cluster
  pub granted : List Grant

abbrev pub update : String → Cluster → Network → Network
update n c s = record s { member = λ m. if str_eq m n then c else s.member m }

abbrev pub grant : ℕ → String → String → Network → Network
grant t v c s = record s { granted = record { term = t; voter = v; candidate = c } ∷ s.granted }

-- The test of `fightingWithRetry` on an answer: success, and the vote is for the asker.
abbrev pub counts : ℕ → ℕ → String → String → Cluster → Bool
counts now t cand voter c =
    let r = (ask_vote now t cand c).1 in r.success && str_eq r.vote_node_name cand

pub data Step (s : Network) : Network → Type 0 where
  -- a member answers a vote request, and the answer counts
  answer :
      (now t : ℕ) (voter cand : String)
      → counts now t cand voter (s.member voter) ≡ true
      → Step s (grant t voter cand (update voter (ask_vote now t cand (s.member voter)).0 s))
  -- a candidate votes for itself
  self :
      (t : ℕ) (cand : String)
      → (vote_node t cand (s.member cand)).1 ≡ true
      → Step s (grant t cand cand (update cand (vote_node t cand (s.member cand)).0 s))
  -- a member does anything that keeps its votes: each of its other operations, and an answer that
  -- is lost, late or not counted
  other : (n : String) (c : Cluster) → Later (s.member n) c → Step s (update n c s)

pub data Reach (s : Network) : Network → Type 0 where
  here : Reach s s
  next : {t u : Network} → Reach s t → Step t u → Reach s u

-- The votes granted are on record at their voters.
abbrev pub OnRecord : Network → Grant → Type 0
OnRecord s g = (s.member g.voter).votes_map g.term ≡ some g.candidate

abbrev pub AllOnRecord : Network → Type 0
AllOnRecord s = All (OnRecord s) s.granted

update-OnRecord :
    (n : String) (c : Cluster) (s : Network) (g : Grant)
    → Later (s.member n) c
    → OnRecord s g
    → OnRecord (update n c s) g
update-OnRecord n c s g l h = elim (Bool-cases (str_eq g.voter n)) [
  | inl hit ↦
      let same : g.voter ≡ n = (eq_iff g.voter n).0 hit in
      rw hit (l.votes g.term (subst (λ m. (s.member m).votes_map g.term ≡ some g.candidate) same h))
  | inr away ↦ rw away h
]

update-AllOnRecord :
    (n : String) (c : Cluster) (s : Network) (gs : List Grant)
    → Later (s.member n) c
    → All (OnRecord s) gs
    → All (OnRecord (update n c s)) gs
update-AllOnRecord n c s [] l h = tt
update-AllOnRecord n c s (g ∷ gs) l h =
    (update-OnRecord n c s g l h.0, update-AllOnRecord n c s gs l h.1)

Step-AllOnRecord : {s u : Network} → Step s u → AllOnRecord s → AllOnRecord u
Step-AllOnRecord {s} (answer now t v c counted) h = (
  ground (
    arith,
    eq_iff v v,
    eq_iff (ask_vote now t c (s.member v)).1.vote_node_name c,
    ask_vote-voted now t c (s.member v),
  ),
  update-AllOnRecord v _ s s.granted (ask_vote-Later now t c (s.member v)) h,
)
Step-AllOnRecord {s} (self t c voted) h = (
  ground (arith, eq_iff c c, vote_node-voted t c (s.member c) voted),
  update-AllOnRecord c _ s s.granted (vote_node-Later t c (s.member c)) h,
)
Step-AllOnRecord {s} (other n c l) h = update-AllOnRecord n c s s.granted l h

-- Every vote granted on the way stands on record at its voter, whatever the members do meanwhile.
pub Reach-AllOnRecord : {s u : Network} → Reach s u → AllOnRecord s → AllOnRecord u
Reach-AllOnRecord here h = h
Reach-AllOnRecord (next r st) h = Step-AllOnRecord st (Reach-AllOnRecord r h)

-- The list holds the vote of `voter` for `cand` in term `t`.
abbrev pub holds : ℕ → String → String → List Grant → Bool
holds t voter cand [] = false
holds t voter cand (g ∷ gs) =
    (g.term == t && (str_eq g.voter voter && str_eq g.candidate cand)) || holds t voter cand gs

-- The candidate has the votes of a quorum of the nodes: the condition under which
-- `fightingWithRetry` goes on to announce itself.
pub record Wins (nodes : List String) (s : Network) (t : ℕ) (cand : String) : Type 0 where
  pub voters : List String
  pub distinct : Distinct voters
  pub within : Within voters nodes
  pub knows : (s.member cand).all_node ≡ nodes
  pub enough : get_quorum (s.member cand) ≤ length voters
  pub votes : All (λ v. holds t v cand s.granted ≡ true) voters

holds-Step :
    {s u : Network} (t : ℕ) (v c : String)
    → Step s u
    → holds t v c s.granted ≡ true
    → holds t v c u.granted ≡ true
holds-Step t v c (answer now t' v' c' p) h = ground arith
holds-Step t v c (self t' c' p) h = ground arith
holds-Step t v c (other n d l) h = h

holds-Reach :
    {s u : Network} (t : ℕ) (v c : String)
    → Reach s u
    → holds t v c s.granted ≡ true
    → holds t v c u.granted ≡ true
holds-Reach t v c here h = h
holds-Reach t v c (next r st) h = holds-Step t v c st (holds-Reach t v c r h)

-- A vote that the list holds is on record at its voter.
OnRecord-of_holds :
    (s : Network) (t : ℕ) (v c : String) (gs : List Grant)
    → All (OnRecord s) gs
    → holds t v c gs ≡ true
    → (s.member v).votes_map t ≡ some c
OnRecord-of_holds s t v c [] a h = absurd (ground arith)
OnRecord-of_holds s t v c (g ∷ gs) a h = elim (Bool-cases (holds t v c gs)) [
  | inl later ↦ OnRecord-of_holds s t v c gs a.1 later
  | inr head ↦ ground (arith, eq_iff g.voter v, eq_iff g.candidate c, a.0)
]

vote_of_contains :
    (s : Network) (t : ℕ) (v c : String) (vs : List String)
    → All (λ w. holds t w c s.granted ≡ true) vs
    → contains v vs ≡ true
    → holds t v c s.granted ≡ true
unfolding contains
vote_of_contains s t v c [] a h = absurd (ground arith)
vote_of_contains s t v c (w ∷ vs) a h = elim (Bool-cases (contains v vs)) [
  | inl later ↦ vote_of_contains s t v c vs a.1 later
  | inr head ↦ ground (arith, eq_iff w v, a.0)
]

quorum_lem : (c : Cluster) → length c.all_node < get_quorum c + get_quorum c
unfolding get_quorum
quorum_lem c = ground arith

-- From any start in which no vote has been granted, at most one candidate gets the votes of a
-- quorum in a term: if one has them now and one has them then or later, in the same term and over
-- the same list of nodes, they are the same candidate, whatever requests are served, lost or late
-- in between.
pub election_safety :
    (nodes : List String) (members : String → Cluster) {s u : Network}
    → Reach (record { member = members; granted = [] }) s
    → Reach s u
    → (t : ℕ) (a b : String) → Wins nodes s t a
    → Wins nodes u t b
    → a ≡ b
election_safety nodes members {s} {u} before after t a b wa wb =
    let recorded = Reach-AllOnRecord after (Reach-AllOnRecord before tt) in
    let (k, ka, kb) =
      common_name wa.voters wb.voters nodes wa.distinct wb.distinct wa.within wb.within (
        omega (
          arith,
          quorum_lem (s.member a),
          quorum_lem (u.member b),
          wa,
          wb,
          ap (λ l. length l) wa.knows,
          ap (λ l. length l) wb.knows,
        )) in
    let first = holds-Reach t k a after (vote_of_contains s t k a wa.voters wa.votes ka) in
    let second = vote_of_contains u t k b wb.voters wb.votes kb in
    cc (
      OnRecord-of_holds u t k a u.granted recorded first,
      OnRecord-of_holds u t k b u.granted recorded second,
    )
