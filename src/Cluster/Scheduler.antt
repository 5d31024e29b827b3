-- ===== src/Cluster/Scheduler.antt =====
-- cluster/scheduler.go: the job tracker, and consumeEvent of cluster/cluster.go, which drives it. A method of the
-- tracker is one step: consumeEvent calls them one after the other. A ticker is the goroutine of
-- `runTicker`; it lives until the context that it was started with is cancelled.
pub mod Mirror
mod Tests
use common_tools.Prelude.{
  ℕ, zero, suc, Bool, true, false, Option, none, some, List, [], ◌∷◌, ◌++◌, String, length,
  get_elem?, map, if◌then◌else◌,
}
use common_tools.Prelude.Int.{ℤ, pos, leb_ℤ}
use common_tools.Cluster.State.{
  Event, EventName, start_up, sign_master, sign_follower, unsign_master, unsign_follower,
  election_start, election_finish, close,
}

pub data Status : Type 0 where
  status_stopped status_running status_close : Status

-- What a ticker calls: `MasterCall`, or `SlaverCall` with the leader's name.
pub data Role : Type 0 where
  leading : Role
  following : String → Role

pub record Ticker : Type 0 where
  pub role : Role
  pub live : Bool

-- The calls of the callers.
pub data Callback : Type 0 where
  on_started_leading on_stopped_leading on_stopped_following master_call : Callback
  on_started_following slaver_call : String → Callback

-- `leader_cancel` and `worker_cancel` cancel the context of one ticker each; `calls` is what the callers have
-- been called with, the last call first.
pub record DefaultJobTracker (C : Type 0) : Type 0 where
  pub interval : ℤ
  pub callers : List C
  pub status : Status
  pub tickers : List Ticker
  pub leader_cancel : Option ℕ
  pub worker_cancel : Option ℕ
  pub calls : List (C × Callback)

-- `cancel` of the context of the ticker started as number `i`; a second call does nothing.
abbrev pub stop_ticker : ℕ → List Ticker → List Ticker
stop_ticker i [] = []
stop_ticker zero (t ∷ ts) = record t { live = false } ∷ ts
stop_ticker (suc i) (t ∷ ts) = t ∷ stop_ticker i ts

abbrev pub cancel : Option ℕ → List Ticker → List Ticker
cancel none ts = ts
cancel (some i) ts = stop_ticker i ts

module _ {C : Type 0} where
  unfoldable pub new_job_tracker : ℤ → List C → DefaultJobTracker C
  new_job_tracker interval callers = record {
    interval = if leb_ℤ interval (pos 0) then pos 10 else interval;
    callers = callers;
    status = status_stopped;
    tickers = [];
    leader_cancel = none;
    worker_cancel = none;
    calls = [];
  }

  abbrev pub call_all : Callback → DefaultJobTracker C → List (C × Callback)
  call_all call t = map (λ c. (c, call)) t.callers ++ t.calls

  unfoldable pub started_leading : DefaultJobTracker C → DefaultJobTracker C
  started_leading t = elim t.status [
    | status_stopped ↦ record t {
      status = status_running;
      tickers = t.tickers ++ record { role = leading; live = true } ∷ [];
      leader_cancel = some (length t.tickers);
      calls = call_all on_started_leading t;
    }
    | status_running ↦ t
    | status_close ↦ t
  ]

  unfoldable pub stopped_leading : DefaultJobTracker C → DefaultJobTracker C
  stopped_leading t = elim t.status [
    | status_running ↦ record t {
      status = status_stopped;
      tickers = cancel t.leader_cancel t.tickers;
      calls = call_all on_stopped_leading t;
    }
    | status_stopped ↦ t
    | status_close ↦ t
  ]

  unfoldable pub stopped_following : DefaultJobTracker C → DefaultJobTracker C
  stopped_following t = elim t.status [
    | status_running ↦ record t {
      status = status_stopped;
      tickers = cancel t.worker_cancel t.tickers;
      calls = call_all on_stopped_following t;
    }
    | status_stopped ↦ t
    | status_close ↦ t
  ]

  unfoldable pub started_following : String → DefaultJobTracker C → DefaultJobTracker C
  started_following leader_name t = elim t.status [
    | status_stopped ↦ record t {
      status = status_running;
      tickers = t.tickers ++ record { role = following leader_name; live = true } ∷ [];
      worker_cancel = some (length t.tickers);
      calls = call_all (on_started_following leader_name) t;
    }
    | status_running ↦ t
    | status_close ↦ t
  ]

  unfoldable pub close_tracker : DefaultJobTracker C → DefaultJobTracker C
  close_tracker t = record t {
    status = status_close;
    tickers = cancel t.worker_cancel (cancel t.leader_cancel t.tickers);
  }

  -- The timer of a ticker fires: it calls all callers if its context is not cancelled.
  unfoldable pub tick : ℕ → DefaultJobTracker C → DefaultJobTracker C
  tick i t = elim (get_elem? t.tickers i) [
    | none ↦ t
    | some ticker ↦
        if ticker.live
        then record t {
          calls = elim ticker.role [
            | leading ↦ call_all master_call t
            | following l ↦ call_all (slaver_call l) t
          ];
        }
        else t
  ]

  -- What `consumeEvent` does with one event and one tracker.
  unfoldable pub consume_event : Event → DefaultJobTracker C → DefaultJobTracker C
  consume_event ev t = elim ev.name [
    | start_up ↦ t
    | sign_follower ↦ started_following ev.leader_name t
    | sign_master ↦ started_leading t
    | unsign_master ↦ stopped_leading t
    | election_start ↦ t
    | election_finish ↦ t
    | unsign_follower ↦ stopped_following t
    | close ↦ t
  ]

  abbrev pub consume_all : List Event → DefaultJobTracker C → DefaultJobTracker C
  consume_all [] t = t
  consume_all (ev ∷ evs) t = consume_all evs (consume_event ev t)
