-- ===== src/Cluster/RemoteCall/Tests.antt =====
-- Calls of a member that is not ready, with that ignored.
use common_tools.Prelude.{
  ℕ, ◌≡◌, refl, true, false, Option, none, some, [], ◌∷◌, String, str_eq, contains, if◌then◌else◌,
}
use common_tools.Cluster.State.{made, Cluster, Mode, Sate, is_ready}
use common_tools.Cluster.RemoteCall.{
  Outcome, result, error, timed_out, call_failed, FuncSpec, set_result, get_result, Ending, returns,
  Reply, lost, call_local_func, call_remote_func, call_func,
}

abbrev member : Cluster
member = record {
  mode = Mode.cluster;
  timeout = 5;
  cur_node = record {
    name = "a";
    heartbeat = none;
    last_heartbeat_ok = true;
    heartbeat_failures = 0;
  };
  leader_node = none;
  lost_leader_time = none;
  all_node = "a" ∷ "b" ∷ [];
  alive_nodes = "a" ∷ "b" ∷ [];
  term = 0;
  sate = Sate.candidate;
  votes_map = λ t. none;
  events = [];
  channel = made;
  events_closed = false;
  reconnect_pending = false;
}

-- One function, which returns what it gets.
abbrev funcs : String → Option (ℕ → Ending ℕ ℕ)
funcs name = if str_eq name "echo" then some (λ n. returns (some n)) else none

abbrev call_to : String → FuncSpec ℕ ℕ ℕ
call_to node = record {
  node_name = node;
  func_name = "echo";
  param = 4;
  sync = true;
  ignore_not_ready = true;
  finished = none;
  cached = false;
  cancelled = false;
}

abbrev no_answer : Reply ℕ ℕ
no_answer = lost 5

-- What the caller gets.
abbrev result_of : Option (Cluster × FuncSpec ℕ ℕ ℕ) → Option (Outcome ℕ ℕ)
result_of none = none
result_of (some (c, f)) = some (get_result f)

here : result_of (call_func 1 [] funcs no_answer member (call_to "a")) ≡ some (result (some 4))
unfolding call_func call_local_func set_result get_result is_ready
here = refl

there :
    result_of (call_func 1 [] funcs no_answer member (call_to "b")) ≡ some (error (call_failed 5))
unfolding call_func call_remote_func set_result get_result is_ready contains
there = refl

too_late :
    result_of (call_func 1 (error timed_out ∷ []) funcs no_answer member (call_to "a"))
    ≡ some (error timed_out)
unfolding call_func call_local_func set_result get_result is_ready
too_late = refl
