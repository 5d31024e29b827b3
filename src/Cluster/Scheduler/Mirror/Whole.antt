-- ===== src/Cluster/Scheduler/Mirror/Whole.antt =====
-- A job tracker follows its member from its start on.
use common_tools.Prelude.{ℕ, ◌≡◌, refl, Bool, true, false, Option, none, List, [], String}
use common_tools.Prelude.Int.{ℤ}
use common_tools.Cluster.State.{
  made, Cluster, Sate, election_start, election_finish, get_my_name, get_leader_name, create_event,
}
use common_tools.Cluster.Rpc.{Request, serve}
use common_tools.Cluster.Connect.{Dialling, reconnect}
use common_tools.Cluster.Election.{Run, fighting}
use common_tools.Cluster.Election.Kept.{fighting-Kept}
use common_tools.Cluster.Heartbeat.{Beat, heartbeat_tick}
use common_tools.Cluster.Redis.{Answer, watch_dog_tick, sync_leader_tick}
use common_tools.Cluster.Lifecycle.{start_member, may_start, is_single}
use common_tools.Cluster.Scheduler.{DefaultJobTracker, consume_all, new_job_tracker}
use common_tools.Cluster.Scheduler.Mirror.{Mirrors}
use common_tools.Cluster.Scheduler.Mirror.Events.{Tracks}
use common_tools.Cluster.Scheduler.Mirror.Changes.{
  starts_up, starts_election, ends_election, Change-Tracks,
}
use common_tools.Cluster.Scheduler.Mirror.Requests.{serve-Tracks, Tracks-IsKept}
use common_tools.Cluster.Scheduler.Mirror.Ticks.{
  heartbeat_tick-Tracks, watch_dog_tick-Tracks, sync_leader_tick-Tracks,
}

-- What happens to a member that runs: it serves a request, an election runs (with the requests that come in
-- meanwhile), or one of its loops ticks. In the mode "redis" an election sends two events.
pub data Happens (c : Cluster) : Cluster → Type 0 where
  serves : (now : ℕ) (r : Request) → Happens c (serve now r c)
  fights : (run : Run) → Happens c (fighting run c).0
  beats :
      (b : Beat) (failures elections : ℕ)
      → Happens c
          (heartbeat_tick b
            (record { member = c; failures = failures; elections = elections })).member
  watches :
      (now : ℕ) (ttl : ℤ) (has_scripts : Bool) (value : Answer (Option String))
      → Happens c (watch_dog_tick now ttl has_scripts value c).0
  syncs :
      (now : ℕ) (value : Answer (Option String)) (keys : Answer (List (Answer (Option String))))
      → Happens c (sync_leader_tick now value keys c).0
  begins : Happens c (create_event election_start "" c)
  concludes : Happens c (create_event election_finish (get_leader_name c) c)

pub data History (c : Cluster) : Cluster → Type 0 where
  nothing_yet : History c c
  and_then : {d e : Cluster} → History c d → Happens d e → History c e

module _ {C : Type 0} where
  Happens-Tracks :
      (t0 : DefaultJobTracker C) {c d : Cluster} → Happens c d → Tracks t0 c → Tracks t0 d
  Happens-Tracks t0 {c} (serves now r) k = serve-Tracks t0 now r c k
  Happens-Tracks t0 {c} (fights run) k = fighting-Kept (Tracks-IsKept t0) run c k
  Happens-Tracks t0 {c} (beats b failures elections) k =
      heartbeat_tick-Tracks t0 b (record { member = c; failures = failures; elections = elections })
        k
  Happens-Tracks t0 {c} (watches now ttl has_scripts value) k =
      watch_dog_tick-Tracks t0 now ttl has_scripts value c k
  Happens-Tracks t0 {c} (syncs now value keys) k = sync_leader_tick-Tracks t0 now value keys c k
  Happens-Tracks t0 {c} begins k = Change-Tracks t0 (starts_election "") k
  Happens-Tracks t0 {c} concludes k = Change-Tracks t0 (ends_election (get_leader_name c)) k

  History-Tracks :
      (t0 : DefaultJobTracker C) {c d : Cluster} → History c d → Tracks t0 c → Tracks t0 d
  History-Tracks t0 nothing_yet k = k
  History-Tracks t0 (and_then past h) k = Happens-Tracks t0 h (History-Tracks t0 past k)

  -- The member after `Start`, with the event of it.
  start-Tracks :
      (t0 : DefaultJobTracker C) (now : ℕ) (dial : Dialling) (c : Cluster)
      → may_start c ≡ true
      → is_single c ≡ false
      → c.events_closed ≡ false
      → c.leader_node ≡ none
      → Mirrors (get_my_name c) none t0
      → Tracks t0 (start_member now true true dial c).0
  unfolding start_member reconnect
  start-Tracks t0 now dial c may several channel alone new =
      let first : Cluster = record (reconnect dial (record c { term = 0; sate = Sate.follower })) {
        events = [];
        channel = made;
      } in
      rw (may, several, start_member)
        (Change-Tracks t0 {c = first} (starts_up "") (record {
          is_open = record { channel = rw channel refl; state = refl };
          mirrors = rw alone new;
        }))

  -- A member that is new or was closed, is not in the mode "single", has never closed its event channel, and has no
  -- leader, is started without an error. Then it serves any requests, runs any elections, and its loops tick, in any
  -- order, each of these as a whole. A job tracker that is new at the start and gets all the events in order
  -- has, after the last of them, no live ticker if the member has no leader; exactly one, for the master's calls, if
  -- the member leads; and otherwise exactly one, for the slave's calls with the name of the present leader.
  pub start-Mirrors :
      (interval : ℤ) (callers : List C) (now : ℕ) (dial : Dialling) (c : Cluster) {d : Cluster}
      → may_start c ≡ true
      → is_single c ≡ false
      → c.events_closed ≡ false
      → c.leader_node ≡ none
      → History (start_member now true true dial c).0 d
      → Mirrors
          (get_my_name d)
          d.leader_node
          (consume_all d.events (new_job_tracker interval callers))
  unfolding new_job_tracker
  start-Mirrors interval callers now dial c may several channel alone history =
      let t0 = new_job_tracker interval callers in
      (History-Tracks t0 history
        (start-Tracks t0 now dial c may several channel alone (refl, refl))).mirrors
