-- ===== src/Cluster/Redis.antt =====
-- cluster/cluster_redis.go: election by a key with a time to live. What Redis answers to a command is an
-- argument; the two scripts, which Redis runs as one step, are translated.
pub mod Lease
pub mod Nodes
mod Tests
use common_tools.Prelude.{
  ℕ, zero, suc, ◌+◌, ◌-◌, ◌*◌, Bool, true, false, not, ◌&&◌, ◌||◌, Option, none, some, List, [],
  ◌∷◌, ◌++◌, String, str_eq, contains, ltb, if◌then◌else◌,
}
use common_tools.Prelude.Int.{ℤ, pos, leb_ℤ}
use common_tools.Cluster.State.{
  Cluster, is_leader, get_my_name, get_leader_name, election_start, election_finish, create_event,
}
use common_tools.Cluster.Leader.{sign_leader, release_leader}

-- An answer of Redis, or an error.
pub data Answer (A : Type 0) : Type 0 where
  answer : A → Answer A
  failed : Answer A

-- How an election ends: the key is set, another node holds it, or the last try fails too.
pub data Fight : Type 0 where
  won held gave_up : Fight

abbrev pub max_retries : ℕ
max_retries = 3

-- The tries from the retry `retry_count` on, with `left` retries left: how they end, and the seconds waited
-- before each retry. `set_nx` has the answer to each try.
unfoldable pub retry_loop : (ℕ → Answer Bool) → ℕ → ℕ → Fight × List ℕ
retry_loop set_nx zero retry_count = elim (set_nx retry_count) [
  | failed ↦ (gave_up, [])
  | answer ok ↦ (if ok then won else held, [])
]
retry_loop set_nx (suc left) retry_count =
    let rest = retry_loop set_nx left (retry_count + 1) in
    elim (set_nx retry_count) [
      | failed ↦ (rest.0, (retry_count + 1) ∷ rest.1)
      | answer ok ↦ (if ok then won else held, [])
    ]

-- `redisFightingWithRetry`, whose recursion ends when the retry count is `maxRetries`.
unfoldable pub fighting_with_retry : (ℕ → Answer Bool) → ℕ → Fight × List ℕ
unfolding retry_loop
fighting_with_retry set_nx retry_count = retry_loop set_nx (max_retries - retry_count) retry_count

-- `redisFighting`, unless one is running. The leader's name in the
-- second event is that of the moment.
unfoldable pub redis_fighting :
    (ℕ → Answer Bool) → (Cluster → Cluster) → Cluster → Cluster × Fight × List ℕ
redis_fighting set_nx meanwhile c =
    let started = meanwhile (create_event election_start "" c) in
    let r = fighting_with_retry set_nx 0 in
    (create_event election_finish (get_leader_name started) started, r.0, r.1)

-- `redisRenewLeaderLeaseScript`: the expiry is set, which answers 1, only on a key with this value.
abbrev pub renew_script : Option String → String → Bool
renew_script none name = false
renew_script (some value) name = str_eq value name

-- `redisRenewLeaderLease`. The value of the key is an answer of Redis; so is an error of the script.
unfoldable pub renew_leader_lease : ℤ → Bool → Answer (Option String) → String → Answer Bool
renew_leader_lease ttl has_scripts value leader_name =
    if str_eq leader_name ""
    then answer false
    else if leb_ℤ ttl (pos 0)
    then failed
    else if not has_scripts
    then failed
    else elim value [ failed ↦ failed | answer v ↦ answer (renew_script v leader_name) ]

-- A tick of `redisWatchDog`: the member, and whether the watch goes on.
unfoldable pub watch_dog_tick : ℕ → ℤ → Bool → Answer (Option String) → Cluster → Cluster × Bool
watch_dog_tick now ttl has_scripts value c =
    elim (renew_leader_lease ttl has_scripts value (get_leader_name c)) [
      | failed ↦ (release_leader now c, false)
      | answer renewed ↦ if renewed then (c, true) else (release_leader now c, false)
    ]

-- The first part of `updateNodesFromRedis`: nodes that are not known are stored.
abbrev pub add_nodes : List String → List String → List String
add_nodes [] known = known
add_nodes (n ∷ ns) known = add_nodes ns (if contains n known then known else n ∷ known)

-- The second: those that are not in the list go, but this node stays.
abbrev pub keep_nodes : String → List String → List String → List String
keep_nodes me new [] = []
keep_nodes me new (n ∷ ns) =
    let rest = keep_nodes me new ns in if str_eq n me || contains n new then n ∷ rest else rest

-- The alive nodes lose those that go.
abbrev pub drop_gone : String → List String → List String → List String → List String
drop_gone me new all [] = []
drop_gone me new all (n ∷ ns) =
    let rest = drop_gone me new all ns in
    if contains n all && not (str_eq n me || contains n new) then rest else n ∷ rest

-- `updateNodesFromRedis`, up to the call of `reconnect`.
unfoldable pub update_nodes_from_redis : List String → Cluster → Cluster
update_nodes_from_redis new c =
    let all = add_nodes new c.all_node in
    record c {
      all_node = keep_nodes (get_my_name c) new all;
      alive_nodes = drop_gone (get_my_name c) new all c.alive_nodes;
    }

-- `doSyncNodes`: what the index lists and what each node's key holds, a name, nothing, or an error. A node without a
-- key leaves the index, and this node is left out.
unfoldable pub collect_nodes : String → List (Answer (Option String)) → Answer (List String)
collect_nodes me [] = answer []
collect_nodes me (failed ∷ _) = failed
collect_nodes me (answer none ∷ rest) = collect_nodes me rest
collect_nodes me (answer (some name) ∷ rest) = elim (collect_nodes me rest) [
  | failed ↦ failed
  | answer names ↦ answer (if str_eq name me then names else name ∷ names)
]

unfoldable pub do_sync_nodes : Answer (List (Answer (Option String))) → Cluster → Cluster × Bool
do_sync_nodes failed c = (c, false)
do_sync_nodes (answer keys) c = elim (collect_nodes (get_my_name c) keys) [
  | failed ↦ (c, false)
  | answer names ↦ (update_nodes_from_redis names c, true)
]

-- What a tick of `redisSyncLeader` starts: nothing, an election, or the watch.
pub data Starts : Type 0 where
  nothing an_election a_watch : Starts

-- A leader that is known is signed, with term 0.
abbrev pub take_leader : ℕ → String → Cluster → Cluster × Starts
take_leader now name c =
    let r = sign_leader now (some name) 0 c in
    (r.0, if r.1 && is_leader r.0 then a_watch else nothing)

-- The tick; `none` is no key.
unfoldable pub sync_leader_tick :
    ℕ → Answer (Option String) → Answer (List (Answer (Option String))) → Cluster → Cluster × Starts
sync_leader_tick now failed keys c = (c, nothing)
sync_leader_tick now (answer none) keys c = (release_leader now c, an_election)
sync_leader_tick now (answer (some name)) keys c =
    if str_eq (get_leader_name c) name
    then (c, nothing)
    else if contains name c.all_node
    then take_leader now name c
    else let s = do_sync_nodes keys c in
      if s.1 && contains name s.0.all_node then take_leader now name s.0 else (s.0, nothing)
