-- ===== src/Cluster/Election/Scan.antt =====
-- What an election learns from the answers to `AskLeader`.
use common_tools.Prelude.{
  ℕ, ◌≡◌, ◌≤◌, ◌<◌, ◌≢◌, true, List, [], ◌∷◌, String, arith, eq_iff, length, All,
}
use common_tools.Cluster.State.{Cluster, get_quorum}
use common_tools.Cluster.Rpc.{LeaderResponse}
use common_tools.Cluster.Election.{scan_step, scan, adopt, done, campaign, take_term}

-- The answer, if it is successful, has no higher term.
abbrev pub Below : ℕ → LeaderResponse → Type 0
Below t m = m.success ≡ true → m.term ≤ t

scan_step-Below :
    (m : LeaderResponse) (acc : String × ℕ)
    → (acc.1 ≤ (scan_step m acc).1) × Below (scan_step m acc).1 m
unfolding scan_step
scan_step-Below m (l, t) = (ground arith, λ h. ground arith)

scan-start : (ms : List LeaderResponse) (acc : String × ℕ) → acc.1 ≤ (scan ms acc).1
unfolding scan
scan-start [] acc = omega arith
scan-start (m ∷ ms) acc = omega (arith, scan_step-Below m acc, scan-start ms (scan_step m acc))

scan-Below : (ms : List LeaderResponse) (acc : String × ℕ) → All (Below (scan ms acc).1) ms
unfolding scan
scan-Below [] acc = tt
scan-Below (m ∷ ms) acc = (
  λ h. omega (arith, (scan_step-Below m acc).1 h, scan-start ms (scan_step m acc)),
  scan-Below ms (scan_step m acc),
)

take_term-campaign :
    (ms : List LeaderResponse) (t : ℕ) (c : Cluster)
    → get_quorum c ≤ length ms
    → (take_term ms t c).1 ≡ campaign
    → (take_term ms t c).0.term ≡ t
unfolding take_term
take_term-campaign ms t c enough h = ground arith

-- A member that goes on to ask for votes after at least a quorum of answers has taken over the highest
-- term among them: no successful answer named a higher one, so the next term is new to all of them.
pub adopt-campaign :
    (now : ℕ) (ms : List LeaderResponse) (c : Cluster)
    → get_quorum c ≤ length ms
    → (adopt now ms c).1 ≡ campaign
    → All (Below (adopt now ms c).0.term) ms
unfolding adopt
adopt-campaign now ms c enough h =
    let t = (scan ms ("", 0)).1 in
    let at : (adopt now ms c).0.term ≡ t = ground (arith, take_term-campaign ms t c enough) in
    rw at (scan-Below ms ("", 0))

-- With fewer answers than a quorum the member asks for votes without taking over any term, however
-- high the answers' are. The asker is not among its own answers, so this is each election in which just
-- a quorum of the nodes is alive.
pub adopt-few :
    (now : ℕ) (ms : List LeaderResponse) (c : Cluster)
    → length ms < get_quorum c
    → (adopt now ms c).1 ≢ done
    → adopt now ms c ≡ (c, campaign)
unfolding adopt take_term
adopt-few now ms c few open_ = ground arith

-- A successful answer that knows no leader, after one that names a leader of an older term: the
-- scan pairs that leader with the newer term.
pub scan-stale :
    (a b : LeaderResponse)
    → a.success ≡ true
    → a.leader_node_name ≢ ""
    → b.success ≡ true
    → b.leader_node_name ≡ ""
    → a.term ≤ b.term
    → scan (a ∷ b ∷ []) ("", 0) ≡ (a.leader_node_name, b.term)
unfolding scan
scan-stale a b sa na sb nb le =
    ground (arith, eq_iff a.leader_node_name "", eq_iff b.leader_node_name "")
