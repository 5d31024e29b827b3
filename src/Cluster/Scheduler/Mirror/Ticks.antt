-- ===== src/Cluster/Scheduler/Mirror/Ticks.antt =====
-- A job tracker follows its member through the ticks of the heartbeat and of the Redis loops.
use common_tools.Prelude.{
  ℕ, ◌≡◌, inl, inr, refl, Bool, true, false, not, Option, none, some, List, String, str_eq,
  Bool-cases, contains, leb, arith, ◌&&◌, ◌+◌,
}
use common_tools.Prelude.Int.{ℤ}
use common_tools.Cluster.State.{Cluster, get_my_name, get_leader_name, is_leader, is_follower}
use common_tools.Cluster.Heartbeat.{Beat, Pulse, insufficient, heartbeat_tick}
use common_tools.Cluster.Redis.{
  Answer, answer, failed, watch_dog_tick, renew_leader_lease, do_sync_nodes,
  update_nodes_from_redis, sync_leader_tick,
}
use common_tools.Cluster.Scheduler.{DefaultJobTracker}
use common_tools.Cluster.Scheduler.Mirror.Events.{Tracks}
use common_tools.Cluster.Scheduler.Mirror.Changes.{signs, releases, releases_named, Change-Tracks}
use common_tools.Cluster.Scheduler.Mirror.Requests.{aside-Tracks, trigger_reconnect-Tracks}

module _ {C : Type 0} (t0 : DefaultJobTracker C) where
  pub heartbeat_tick-Tracks :
      (b : Beat) (p : Pulse) → Tracks t0 p.member → Tracks t0 (heartbeat_tick b p).member
  unfolding heartbeat_tick
  heartbeat_tick-Tracks b p k =
      let c = p.member in
      let awake = trigger_reconnect-Tracks t0 c k in
      let steps = Change-Tracks t0 (releases_named b.now (get_my_name c)) k in
      elim (Bool-cases (is_leader c)) [
        | inl leads ↦ elim (Bool-cases (not b.streams)) [
          | inl gone ↦ rw (leads, gone, heartbeat_tick) k
          | inr there ↦ elim (Bool-cases (insufficient c b)) [
            | inl few ↦ elim (Bool-cases (leb 3 (p.failures + 1))) [
              | inl third ↦
                  rw (leads, there, few, third, heartbeat_tick)
                    (trigger_reconnect-Tracks t0 _ steps)
              | inr first ↦ rw (leads, there, few, first, heartbeat_tick) awake
            ]
            | inr enough ↦ rw (leads, there, enough, heartbeat_tick) awake
          ]
        ]
        | inr led ↦ elim (Bool-cases (is_follower c)) [
          | inl follows ↦ rw (led, follows, heartbeat_tick) awake
          | inr stands ↦ rw (led, stands, heartbeat_tick) awake
        ]
      ]

  pub watch_dog_tick-Tracks :
      (now : ℕ) (ttl : ℤ) (has_scripts : Bool) (value : Answer (Option String)) (c : Cluster)
      → Tracks t0 c
      → Tracks t0 (watch_dog_tick now ttl has_scripts value c).0
  unfolding watch_dog_tick
  watch_dog_tick-Tracks now ttl has_scripts value c k =
      go (renew_leader_lease ttl has_scripts value (get_leader_name c)) refl
    where
      go :
          (a : Answer Bool)
          → renew_leader_lease ttl has_scripts value (get_leader_name c) ≡ a
          → Tracks t0 (watch_dog_tick now ttl has_scripts value c).0
      go failed e = rw (e, watch_dog_tick) (Change-Tracks t0 (releases now) k)
      go (answer true) e = rw (e, watch_dog_tick) k
      go (answer false) e = rw (e, watch_dog_tick) (Change-Tracks t0 (releases now) k)

  do_sync_nodes-Tracks :
      (keys : Answer (List (Answer (Option String)))) (c : Cluster)
      → Tracks t0 c
      → Tracks t0 (do_sync_nodes keys c).0
  unfolding do_sync_nodes update_nodes_from_redis
  do_sync_nodes-Tracks keys c k =
      aside-Tracks t0 c (do_sync_nodes keys c).0 (ground arith) (ground arith) (ground arith)
        (ground arith) (ground arith) k

  pub sync_leader_tick-Tracks :
      (now : ℕ) (v : Answer (Option String)) (keys : Answer (List (Answer (Option String))))
      (c : Cluster)
      → Tracks t0 c
      → Tracks t0 (sync_leader_tick now v keys c).0
  unfolding sync_leader_tick
  sync_leader_tick-Tracks now failed keys c k = k
  sync_leader_tick-Tracks now (answer none) keys c k = Change-Tracks t0 (releases now) k
  sync_leader_tick-Tracks now (answer (some name)) keys c k =
      let synced = do_sync_nodes-Tracks keys c k in
      let s = do_sync_nodes keys c in
      elim (Bool-cases (str_eq (get_leader_name c) name)) [
        | inl same ↦ rw (same, sync_leader_tick) k
        | inr other ↦ elim (Bool-cases (contains name c.all_node)) [
          | inl known ↦
              rw (other, known, sync_leader_tick) (Change-Tracks t0 (signs now (some name) 0) k)
          | inr unknown ↦ elim (Bool-cases (s.1 && contains name s.0.all_node)) [
            | inl found ↦
                rw (other, unknown, found, sync_leader_tick)
                  (Change-Tracks t0 (signs now (some name) 0) synced)
            | inr lost ↦ rw (other, unknown, lost, sync_leader_tick) synced
          ]
        ]
      ]
