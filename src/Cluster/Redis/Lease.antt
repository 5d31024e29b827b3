-- ===== src/Cluster/Redis/Lease.antt =====
-- Who holds the key, and who watches it.
use common_tools.Prelude.{
  ltb, ◌-◌, ℕ, zero, suc, ◌+◌, ◌≡◌, ◌≤◌, ◌<◌, ◌≢◌, ◌⊎◌, inl, inr, refl, ap, ◌∙◌, Bool, true, false,
  Option, none, some, List, [], ◌∷◌, String, eq_iff, arith, if◌then◌else◌, Bool-cases,
}
use common_tools.Prelude.Int.{ℤ, pos, leb_ℤ}
use common_tools.Cluster.Node.{update_heartbeat}
use common_tools.Cluster.State.{
  Cluster, Sate, get_my_name, get_leader_name, create_event, election_start, election_finish,
}
use common_tools.Cluster.Leader.{release_leader, release_leader_lem, sign_leader}
use common_tools.Cluster.Redis.{
  update_nodes_from_redis, Answer, answer, failed, Fight, won, held, gave_up, retry_loop,
  fighting_with_retry, redis_fighting, renew_leader_lease, renew_script, watch_dog_tick,
  an_election, a_watch, sync_leader_tick, take_leader, do_sync_nodes,
}

-- The numbers from `n + 1` to `n + k`.
abbrev pub waits : ℕ → ℕ → List ℕ
waits n zero = []
waits n (suc k) = (n + 1) ∷ waits (n + 1) k

-- The tries from `first` on, `left` retries being left: the first `tries` fail, each followed by a wait, and the next one decides.
pub record Decides (set_nx : ℕ → Answer Bool) (left first : ℕ) (r : Fight × List ℕ) : Type 0 where
  pub tries : ℕ
  pub within : tries ≤ left
  pub earlier : (i : ℕ) → i < tries → set_nx (first + i) ≡ failed
  pub waited : r.1 ≡ waits first tries
  pub outcome :
      ((r.0 ≡ won) × (set_nx (first + tries) ≡ answer true))
      ⊎ (((r.0 ≡ held) × (set_nx (first + tries) ≡ answer false))
          ⊎ ((r.0 ≡ gave_up) × (tries ≡ left) × (set_nx (first + tries) ≡ failed)))

module _ {A : Type 0} where
  Answer-cases : (a : Answer A) → (a ≡ failed) ⊎ ((x : A) × (a ≡ answer x))
  Answer-cases failed = inl refl
  Answer-cases (answer x) = inr (x, refl)

answered-Decides :
    (set_nx : ℕ → Answer Bool) (left first : ℕ) (b : Bool)
    → set_nx first ≡ answer b
    → Decides set_nx left first (if b then won else held, [])
answered-Decides set_nx left first b h =
    let at : set_nx (first + 0) ≡ answer b = ap set_nx (omega arith) ∙ h in
    record {
      tries = 0;
      within = omega arith;
      earlier = λ i p. absurd (omega arith);
      waited = refl;
      outcome = elim (Bool-cases b) [
        | inl t ↦ ground (arith, at, t)
        | inr f ↦ ground (arith, at, f)
      ];
    }

-- The last try fails.
none_left-Decides :
    (set_nx : ℕ → Answer Bool) (first : ℕ)
    → set_nx first ≡ failed
    → Decides set_nx 0 first (gave_up, [])
none_left-Decides set_nx first h = record {
  tries = 0;
  within = omega arith;
  earlier = λ i p. absurd (omega arith);
  waited = refl;
  outcome = inr (inr (refl, refl, ap set_nx (omega arith) ∙ h));
}

first_fails :
    (set_nx : ℕ → Answer Bool) (first n i : ℕ)
    → set_nx first ≡ failed
    → ((j : ℕ) → j < n → set_nx (first + 1 + j) ≡ failed)
    → i < suc n
    → set_nx (first + i) ≡ failed
first_fails set_nx first n zero h rest p = ap set_nx (omega arith) ∙ h
first_fails set_nx first n (suc j) h rest p = ap set_nx (omega arith) ∙ rest j (omega arith)

-- One failed try more in front.
cons-Decides :
    (set_nx : ℕ → Answer Bool) (left first : ℕ) (r : Fight × List ℕ)
    → set_nx first ≡ failed
    → Decides set_nx left (first + 1) r
    → Decides set_nx (suc left) first (r.0, (first + 1) ∷ r.1)
cons-Decides set_nx left first r h d =
    let move : first + suc d.tries ≡ first + 1 + d.tries = omega arith in
    record {
      tries = suc d.tries;
      within = omega (arith, d.within);
      earlier = λ i p. first_fails set_nx first d.tries i h d.earlier p;
      waited = ap (◌∷◌ (first + 1)) d.waited;
      outcome = rw move (ground (arith, d.outcome));
    }

retry_loop-Decides :
    (set_nx : ℕ → Answer Bool) (left first : ℕ)
    → Decides set_nx left first (retry_loop set_nx left first)
unfolding retry_loop
retry_loop-Decides set_nx zero first = elim (Answer-cases (set_nx first)) [
  | inr (b, h) ↦ rw (h, retry_loop) (answered-Decides set_nx 0 first b h)
  | inl h ↦ rw (h, retry_loop) (none_left-Decides set_nx first h)
]
retry_loop-Decides set_nx (suc left) first = elim (Answer-cases (set_nx first)) [
  | inr (b, h) ↦ rw (h, retry_loop) (answered-Decides set_nx (suc left) first b h)
  | inl h ↦
      rw (h, retry_loop)
        (cons-Decides set_nx left first (retry_loop set_nx left (first + 1)) h
          (retry_loop-Decides set_nx left (first + 1)))
]

-- The recursion of the source: an error is followed by a wait and the next try while the retry count is below 3.
pub fighting_with_retry-error :
    (set_nx : ℕ → Answer Bool) (n : ℕ)
    → set_nx n ≡ failed
    → fighting_with_retry set_nx n ≡ (
        if ltb n 3
        then (
          (fighting_with_retry set_nx (n + 1)).0,
          (n + 1) ∷ (fighting_with_retry set_nx (n + 1)).1,
        )
        else (gave_up, []))
unfolding fighting_with_retry retry_loop
fighting_with_retry-error set_nx zero h = rw (h, fighting_with_retry, retry_loop) refl
fighting_with_retry-error set_nx (suc zero) h = rw (h, fighting_with_retry, retry_loop) refl
fighting_with_retry-error set_nx (suc (suc zero)) h = rw (h, fighting_with_retry, retry_loop) refl
fighting_with_retry-error set_nx (suc (suc (suc n))) h =
    let used_up : 3 - suc (suc (suc n)) ≡ 0 = omega arith in
    let past : ltb (suc (suc (suc n))) 3 ≡ false = ground arith in
    rw (used_up, past) (rw (h, retry_loop) refl)

-- An election by the key, whatever happens meanwhile, makes at most four tries, and waits 1, 2, ... seconds in between. Every
-- try but the last one made ends in an error; it is won or lost by the answer to that one, or given up after
-- four errors. It sends the event of its start before the tries and that of its end after them.
pub redis_fighting-Decides :
    (set_nx : ℕ → Answer Bool) (meanwhile : Cluster → Cluster) (c : Cluster)
    → let (d, fight, waited) = redis_fighting set_nx meanwhile c in
      let started = meanwhile (create_event election_start "" c) in
      Decides set_nx 3 0 (fight, waited)
      × (d ≡ create_event election_finish (get_leader_name started) started)
unfolding redis_fighting fighting_with_retry
redis_fighting-Decides set_nx meanwhile c = (retry_loop-Decides set_nx 3 0, refl)

renewed_lem : (v : Option String) (name : String) → renew_script v name ≡ true → v ≡ some name
renewed_lem none name h = absurd (ground arith)
renewed_lem (some w) name h = ap some ((eq_iff w name).0 h)

renewed_back : (v : Option String) (name : String) → v ≡ some name → renew_script v name ≡ true
renewed_back none name h = absurd (ground (arith, h))
renewed_back (some w) name h = (eq_iff w name).1 (ground (arith, h))

-- The watch goes on exactly while the key holds the name of the member's present leader, the time to live is positive and the
-- scripts are there; the member then stays as it is. Otherwise, one of
-- these being false, the watch ends, and the member gives up its leader.
pub watch_dog_tick_lem :
    (now : ℕ) (ttl : ℤ) (has_scripts : Bool) (value : Answer (Option String)) (c : Cluster)
    → let r = watch_dog_tick now ttl has_scripts value c in
      ((r.1 ≡ true)
        × (r.0 ≡ c)
        × (value ≡ answer (some (get_leader_name c)))
        × (get_leader_name c ≢ "")
        × (leb_ℤ ttl (pos 0) ≡ false)
        × (has_scripts ≡ true))
      ⊎ ((r.1 ≡ false)
          × (r.0 ≡ release_leader now c)
          × ((value ≢ answer (some (get_leader_name c)))
              ⊎ ((get_leader_name c ≡ "") ⊎ ((leb_ℤ ttl (pos 0) ≡ true) ⊎ (has_scripts ≡ false)))))
unfolding watch_dog_tick renew_leader_lease
watch_dog_tick_lem now ttl has_scripts failed c = ground arith
watch_dog_tick_lem now ttl has_scripts (answer v) c = ground (
  arith,
  eq_iff (get_leader_name c) "",
  renewed_lem v (get_leader_name c),
  renewed_back v (get_leader_name c),
)

-- The tick never asks whether the member itself leads: a watch that is still on when the member follows another
-- node keeps that node's key alive and goes on, whether that node lives or not.
pub watch_dog_tick-follower :
    (now : ℕ) (ttl : ℕ) (c : Cluster) (other : String)
    → 0 < ttl
    → other ≢ ""
    → c.leader_node ≡ some other
    → watch_dog_tick now (pos ttl) true (answer (some other)) c ≡ (c, true)
unfolding watch_dog_tick renew_leader_lease
watch_dog_tick-follower now ttl c other positive named follows =
    ground (arith, eq_iff other "", eq_iff other other)

take_leader_lem :
    (now : ℕ) (name : String) (c : Cluster)
    → let r = take_leader now name c in
      r.1 ≡ a_watch
      → (name ≡ get_my_name c) × (r.0.leader_node ≡ some name) × (r.0.sate ≡ Sate.leader)
unfolding sign_leader create_event update_heartbeat
take_leader_lem now name c = ground (arith, eq_iff name (get_my_name c))

do_sync_nodes-name :
    (keys : Answer (List (Answer (Option String)))) (c : Cluster)
    → get_my_name (do_sync_nodes keys c).0 ≡ get_my_name c
unfolding do_sync_nodes update_nodes_from_redis
do_sync_nodes-name failed c = refl
do_sync_nodes-name (answer keys) c = ground arith

-- A tick of the leader's synchronisation starts an election only if there is no key, after the member has given
-- up its leader; and it starts a watch only in a member whose own name is the key's, and which
-- has just signed itself as the leader.
pub sync_leader_tick_lem :
    (now : ℕ) (got : Answer (Option String)) (keys : Answer (List (Answer (Option String))))
    (c : Cluster)
    → let r = sync_leader_tick now got keys c in
      (r.1 ≡ an_election
        → (got ≡ answer none) × (r.0.sate ≡ Sate.follower) × (r.0.leader_node ≡ none))
      × (r.1 ≡ a_watch
          → (got ≡ answer (some (get_my_name c)))
            × (r.0.sate ≡ Sate.leader)
            × (r.0.leader_node ≡ some (get_my_name c)))
unfolding sync_leader_tick
sync_leader_tick_lem now failed keys c = ground arith
sync_leader_tick_lem now (answer none) keys c = ground (arith, release_leader_lem now c)
sync_leader_tick_lem now (answer (some name)) keys c =
    let s = (do_sync_nodes keys c).0 in
    ground
      (arith, take_leader_lem now name c, take_leader_lem now name s, do_sync_nodes-name keys c)
