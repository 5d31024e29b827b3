-- ===== src/Cluster/RemoteCall.antt =====
-- cluster/remote_call.go, and CallFunc of cluster/cluster.go with its two ways: a named function is called on
-- this node or on another. The timer, the caller's own wait and the call are threads, which each may
-- set the result; `setResult` holds the mutex. The transport is an argument.
pub mod Once
mod Tests
use common_tools.Prelude.{
  ℕ, Bool, true, false, not, ◌&&◌, Option, none, some, List, [], ◌∷◌, String, str_eq, contains,
  if◌then◌else◌,
}
use common_tools.Cluster.State.{Cluster, get_my_name, is_ready}

-- The errors that the code makes, and those that a function or the transport returns.
pub data CallError (E : Type 0) : Type 0 where
  not_ready timed_out no_such_function no_such_node result_not_ready : CallError E
  returned : E → CallError E
  call_failed : E → CallError E

-- A value, or an error; a Go function that returns both returns the error here.
pub data Outcome (E V : Type 0) : Type 0 where
  result : Option V → Outcome E V
  error : CallError E → Outcome E V

-- How a function ends: it returns, or panics with an error.
pub data Ending (E V : Type 0) : Type 0 where
  returns : Option V → Ending E V
  fails panics : E → Ending E V

-- What the transport brings back from the other node: its answer, or an error on the way.
pub data Reply (E V : Type 0) : Type 0 where
  replied : Outcome E V → Reply E V
  lost : E → Reply E V

-- `finished`, `result` and `err`; `cached` is the entry in the call cache, which `onFinish` deletes, and
-- `cancelled` the context of a synchronous call.
pub record FuncSpec (E V P : Type 0) : Type 0 where
  pub node_name : String
  pub func_name : String
  pub param : P
  pub sync : Bool
  pub ignore_not_ready : Bool
  pub finished : Option (Outcome E V)
  pub cached : Bool
  pub cancelled : Bool

-- `markNodeUnavailable`, without the client of the node.
abbrev pub others : String → List String → List String
others name [] = []
others name (n ∷ ns) = let rest = others name ns in if str_eq n name then rest else n ∷ rest

abbrev pub mark_node_unavailable : String → Cluster → Cluster
mark_node_unavailable name c = record c { alive_nodes = others name c.alive_nodes }

module _ {E V P : Type 0} where
  unfoldable pub new_func_spec : Bool → String → String → P → FuncSpec E V P
  new_func_spec sync node_name func_name param = record {
    node_name = node_name;
    func_name = func_name;
    param = param;
    sync = sync;
    ignore_not_ready = false;
    finished = none;
    cached = false;
    cancelled = false;
  }

  -- `setResult`: only the first result counts.
  unfoldable pub set_result : Outcome E V → FuncSpec E V P → FuncSpec E V P
  set_result r f = elim f.finished [
    | some _ ↦ f
    | none ↦ record f { finished = some r; cached = false; cancelled = f.sync }
  ]

  abbrev pub set_all : List (Outcome E V) → FuncSpec E V P → FuncSpec E V P
  set_all [] f = f
  set_all (r ∷ rs) f = set_all rs (set_result r f)

  -- `GetResult`
  unfoldable pub get_result : FuncSpec E V P → Outcome E V
  get_result f = elim f.finished [ none ↦ error result_not_ready | some r ↦ r ]

  -- `callLocalFunc`, with the functions by name.
  unfoldable pub call_local_func :
      (String → Option (P → Ending E V)) → FuncSpec E V P → FuncSpec E V P
  call_local_func funcs f = elim (funcs f.func_name) [
    | none ↦ set_result (error no_such_function) f
    | some fc ↦ elim (fc f.param) [
      | returns v ↦ set_result (result v) f
      | fails e ↦ set_result (error (returned e)) f
      | panics e ↦ set_result (error (returned e)) f
    ]
  ]

  -- `callRemoteFunc`: a node that does not answer is no longer taken for alive.
  unfoldable pub call_remote_func : Reply E V → Cluster → FuncSpec E V P → Cluster × FuncSpec E V P
  call_remote_func reply c f =
      if contains f.node_name c.alive_nodes
      then elim reply [
        | replied r ↦ (c, set_result r f)
        | lost e ↦ (mark_node_unavailable f.node_name c, set_result (error (call_failed e)) f)
      ]
      else (c, set_result (error no_such_node) f)

  -- `CallFunc`, up to the wait of a synchronous call: the error, or the member and the call. `early`
  -- is what other threads, the timer and the wait, set before the function or the other node has ended.
  unfoldable pub call_func :
      ℕ
      → List (Outcome E V)
      → (String → Option (P → Ending E V))
      → Reply E V
      → Cluster
      → FuncSpec E V P
      → Option (Cluster × FuncSpec E V P)
  call_func now early funcs reply c f =
      let g = set_all early (record f { cached = true }) in
      if not (is_ready now c) && not f.ignore_not_ready
      then none
      else if str_eq (get_my_name c) f.node_name
      then some (c, call_local_func funcs g)
      else some (call_remote_func reply c g)
