-- ===== src/Cluster/RemoteCall/Once.antt =====
-- A call has one result.
use common_tools.Prelude.{
  ◌≡◌, true, false, Option, none, some, List, [], ◌∷◌, String, str_eq, contains, if◌then◌else◌,
}
use common_tools.Cluster.State.{Cluster, get_my_name}
use common_tools.Cluster.RemoteCall.{
  Outcome, result, error, no_such_function, no_such_node, returned, call_failed, FuncSpec, Ending,
  Reply, replied, lost, returns, fails, panics,
}

module _ {E V : Type 0} where
  abbrev pub first_of : List (Outcome E V) → Outcome E V → Outcome E V
  first_of [] own = own
  first_of (r ∷ _) own = r

module _ {E V P : Type 0} where
  -- The call is over with this result, out of the cache, and its waiting caller goes on.
  pub record Over (r : Outcome E V) (f : FuncSpec E V P) : Type 0 where
    pub finished : f.finished ≡ some r
    pub uncached : f.cached ≡ false
    pub woken : f.sync ≡ true → f.cancelled ≡ true

  -- What the function makes of the call, on this node.
  abbrev pub local_outcome : (String → Option (P → Ending E V)) → FuncSpec E V P → Outcome E V
  local_outcome funcs f = elim (funcs f.func_name) [
    | none ↦ error no_such_function
    | some fc ↦ elim (fc f.param) [
      | returns v ↦ result v
      | fails e ↦ error (returned e)
      | panics e ↦ error (returned e)
    ]
  ]

  -- What the other node makes of it.
  abbrev pub remote_outcome : Reply E V → Cluster → FuncSpec E V P → Outcome E V
  remote_outcome reply c f =
      if contains f.node_name c.alive_nodes
      then elim reply [ replied r ↦ r | lost e ↦ error (call_failed e) ]
      else error no_such_node

  -- What the called side makes of the call, on this node or another.
  abbrev pub own_outcome :
      (String → Option (P → Ending E V)) → Reply E V → Cluster → FuncSpec E V P → Outcome E V
  own_outcome funcs reply c f =
      if str_eq (get_my_name c) f.node_name then local_outcome funcs f else remote_outcome reply c f
