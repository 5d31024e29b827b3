-- ===== src/Cluster/Connect.antt =====
-- cluster/cluster.go: `reconnect`, which dials the nodes that have no connection. Which ones have a client, and what comes
-- of dialling the others, is an argument.
use common_tools.Prelude.{
  Bool, ◌&&◌, ◌||◌, List, [], ◌∷◌, ◌++◌, String, str_eq, contains, if◌then◌else◌,
}
use common_tools.Cluster.State.{Cluster, get_my_name}

-- What came of dialling a node before the timeout.
pub data Dial : Type 0 where
  connected failed pending : Dial

-- A round of dialling: the nodes that have a client before it, and what came of dialling each of the others.
pub record Dialling : Type 0 where
  pub has_client : String → Bool
  pub result : String → Dial

store_alive : String → List String → List String
store_alive n alive = if contains n alive then alive else alive ++ n ∷ []

delete_alive : String → List String → List String
delete_alive n [] = []
delete_alive n (m ∷ ms) = if str_eq m n then delete_alive n ms else m ∷ delete_alive n ms

-- The nodes are dialled that are not alive, or alive without a client. One that cannot be reached is not alive any
-- more; one whose answer is late stays what it was.
dial_nodes : Dialling → Cluster → List String → List String → List String
unfolding store_alive delete_alive
dial_nodes dial c [] alive = alive
dial_nodes dial c (n ∷ ns) alive = dial_nodes dial c ns (
    if str_eq (get_my_name c) n || (contains n c.alive_nodes && dial.has_client n)
    then alive
    else elim (dial.result n) [
      | connected ↦ store_alive n alive
      | failed ↦ delete_alive n alive
      | pending ↦ alive
    ])

-- `reconnect`
unfoldable pub reconnect : Dialling → Cluster → Cluster
unfolding dial_nodes
reconnect dial c = record c { alive_nodes = dial_nodes dial c c.all_node c.alive_nodes }
