-- ===== src/Cluster/Node.antt =====
-- cluster/node.go: the heartbeat bookkeeping of a node, and the health test of cluster.go.
-- The connection of a node (its gRPC client) is not part of the record. A time is a number of
-- nanoseconds; `none` is Go's zero time.
use common_tools.Prelude.{
  ℕ, ◌+◌, ◌-◌, ◌*◌, ◌<◌, ◌≤◌, ◌≡◌, ◌↔◌, refl, Bool, true, false, not, Option, none, some, String,
  arith, ltb, if◌then◌else◌,
}

pub record Node : Type 0 where
  pub name : String
  pub heartbeat : Option ℕ
  pub last_heartbeat_ok : Bool
  pub heartbeat_failures : ℕ

pub new_node : String → Node
new_node name = record {
  name = name;
  heartbeat = none;
  last_heartbeat_ok = true;
  heartbeat_failures = 0;
}

unfoldable pub clean : Node → Node
clean n = record n { heartbeat = none; last_heartbeat_ok = false; heartbeat_failures = 0 }

unfoldable pub update_heartbeat : ℕ → Node → Node
update_heartbeat now n = record n {
  heartbeat = some now;
  last_heartbeat_ok = true;
  heartbeat_failures = 0;
}

unfoldable pub update_heartbeat_failed : Node → Node
update_heartbeat_failed n = record n {
  last_heartbeat_ok = false;
  heartbeat_failures =
      if ltb n.heartbeat_failures 10 then n.heartbeat_failures + 1 else n.heartbeat_failures;
}

unfoldable pub reset_heartbeat_on_leader_change : Node → Node
reset_heartbeat_on_leader_change n = record n { last_heartbeat_ok = true; heartbeat_failures = 0 }

is_heartbeat_zero : Node → Bool
is_heartbeat_zero n = elim n.heartbeat [ none ↦ true | some _ ↦ false ]

-- The zero time plus a timeout lies in the past.
is_ready : ℕ → ℕ → Node → Bool
is_ready timeout now n = elim n.heartbeat [ none ↦ false | some t ↦ ltb now (t + timeout) ]

-- `max(0, 100-failures*20)` over `int` is the truncated subtraction.
pub get_health_score : Node → ℕ
get_health_score n = elim n.heartbeat [
  | none ↦ 0
  | some _ ↦
      if ltb 3 n.heartbeat_failures
      then 100 - n.heartbeat_failures * 20
      else if not n.last_heartbeat_ok
      then 50
      else 100
]

-- `isNodeHealthy`, with `none` for a nil node.
unfoldable pub is_node_healthy : ℕ → ℕ → Option Node → Bool
unfolding is_heartbeat_zero is_ready get_health_score
is_node_healthy timeout now none = false
is_node_healthy timeout now (some n) =
    if is_heartbeat_zero n
    then false
    else if not (is_ready timeout now n)
    then false
    else if ltb (get_health_score n) 30
    then false
    else if ltb 3 n.heartbeat_failures
    then false
    else true

-- What `isNodeHealthy` comes to: a heartbeat within the timeout, and at most three failures since.
pub record IsHealthy (timeout now : ℕ) (n : Node) : Type 0 where
  pub since : ℕ
  pub beat : n.heartbeat ≡ some since
  pub fresh : now < since + timeout
  pub few : n.heartbeat_failures ≤ 3

-- A node is healthy exactly when its last heartbeat lies within the timeout and at most three
-- heartbeats have failed since: the score's threshold and the flag of the last heartbeat never
-- decide.
pub is_node_healthy_iff :
    (timeout now : ℕ) (n : Node)
    → (is_node_healthy timeout now (some n) ≡ true) ↔ IsHealthy timeout now n
unfolding is_node_healthy
is_node_healthy_iff timeout now n = (to n.heartbeat refl, λ h. ground arith)
  where
    to :
        (o : Option ℕ)
        → n.heartbeat ≡ o
        → is_node_healthy timeout now (some n) ≡ true
        → IsHealthy timeout now n
    to none e h = absurd (ground arith)
    to (some t) e h = record { since = t; beat = e; fresh = ground arith; few = ground arith }
