-- ===== src/Cluster/Scheduler/Mirror.antt =====
-- A job tracker follows the member's leader.
pub mod Events
pub mod Changes
pub mod Requests
pub mod Ticks
pub mod Whole
use common_tools.Prelude.{
  ℕ, zero, suc, ◌≡◌, refl, ap, sym, ◌∙◌, Bool, true, false, Option, none, some, List, [], ◌∷◌, ◌++◌,
  String, str_eq, eq_iff, subst, length, get_elem?, set, Bool-cases, arith, if◌then◌else◌,
}
use common_tools.Cluster.Scheduler.{
  Status, status_stopped, status_running, Role, leading, following, Ticker, DefaultJobTracker,
  stop_ticker, cancel, started_leading, stopped_leading, stopped_following, started_following,
}

-- The roles of the tickers that live.
abbrev pub live_roles : List Ticker → List Role
live_roles [] = []
live_roles (t ∷ ts) = if t.live then t.role ∷ live_roles ts else live_roles ts

live_roles-start :
    (ts : List Ticker) (r : Role)
    → live_roles ts ≡ []
    → live_roles (ts ++ record { role = r; live = true } ∷ []) ≡ r ∷ []
live_roles-start [] r h = refl
live_roles-start (t ∷ ts) r h = ground (arith, live_roles-start ts r)

-- Its context is cancelled again.
live_roles-stop :
    (ts : List Ticker) (r : Role)
    → live_roles ts ≡ []
    → live_roles (stop_ticker (length ts) (ts ++ record { role = r; live = true } ∷ [])) ≡ []
live_roles-stop [] r h = refl
live_roles-stop (t ∷ ts) r h = ground (arith, h, live_roles-stop ts r)

-- The work that the leader `l` gives the member `me`.
abbrev pub role_of : String → String → Role
role_of me l = if str_eq l me then leading else following l

module _ {C : Type 0} (me : String) where
  -- What cancels that work.
  abbrev pub cancel_of : String → DefaultJobTracker C → Option ℕ
  cancel_of l t = if str_eq l me then t.leader_cancel else t.worker_cancel

  -- Without a leader no ticker lives; with one, exactly the ticker of its role does, and can be stopped.
  abbrev pub Mirrors : Option String → DefaultJobTracker C → Type 0
  Mirrors none t = (t.status ≡ status_stopped) × (live_roles t.tickers ≡ [])
  Mirrors (some l) t =
      (t.status ≡ status_running)
      × (live_roles t.tickers ≡ role_of me l ∷ [])
      × (live_roles (cancel (cancel_of l t) t.tickers) ≡ [])

  pub started_leading-Mirrors :
      (t : DefaultJobTracker C) → Mirrors none t → Mirrors (some me) (started_leading t)
  unfolding started_leading
  started_leading-Mirrors t (idle, quiet) =
      let mine : str_eq me me ≡ true = (eq_iff me me).1 refl in
      rw (idle, mine, started_leading)
        (refl, live_roles-start t.tickers leading quiet, live_roles-stop t.tickers leading quiet)

  pub started_following-Mirrors :
      (l : String) (t : DefaultJobTracker C)
      → str_eq l me ≡ false
      → Mirrors none t
      → Mirrors (some l) (started_following l t)
  unfolding started_following
  started_following-Mirrors l t other (idle, quiet) =
      rw (idle, other, started_following)
        (
          refl,
          live_roles-start t.tickers (following l) quiet,
          live_roles-stop t.tickers (following l) quiet,
        )

  pub stopped_leading-Mirrors :
      (l : String) (t : DefaultJobTracker C)
      → str_eq l me ≡ true
      → Mirrors (some l) t
      → Mirrors none (stopped_leading t)
  unfolding stopped_leading
  stopped_leading-Mirrors l t mine (busy, _, stops) =
      let stops_leader : live_roles (cancel t.leader_cancel t.tickers) ≡ [] =
        subst
          (λ b. live_roles (cancel (if b then t.leader_cancel else t.worker_cancel) t.tickers) ≡ [])
          mine stops in
      rw (busy, stopped_leading) (refl, stops_leader)

  pub stopped_following-Mirrors :
      (l : String) (t : DefaultJobTracker C)
      → str_eq l me ≡ false
      → Mirrors (some l) t
      → Mirrors none (stopped_following t)
  unfolding stopped_following
  stopped_following-Mirrors l t other (busy, _, stops) =
      let stops_worker : live_roles (cancel t.worker_cancel t.tickers) ≡ [] =
        subst
          (λ b. live_roles (cancel (if b then t.leader_cancel else t.worker_cancel) t.tickers) ≡ [])
          other stops in
      rw (busy, stopped_following) (refl, stops_worker)
