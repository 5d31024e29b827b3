-- ===== src/Cluster/Scheduler/Mirror/Events.antt =====
-- The events of a member tell its job tracker all it has to know.
use common_tools.Prelude.{
  ℕ, ◌≡◌, inl, inr, refl, ap, sym, ◌∙◌, subst, Bool, false, none, some, List, [], ◌∷◌, ◌++◌, String,
  str_eq, eq_iff, map, Bool-cases, Option-cases, append_assoc, append-nil, if◌then◌else◌,
}
use common_tools.Cluster.Node.{update_heartbeat}
use common_tools.Cluster.State.{
  Cluster, Sate, Event, EventName, sign_master, sign_follower, get_my_name, create_event, is_closed,
  drops,
}
use common_tools.Cluster.Leader.{send_all, released, unsign_event}
use common_tools.Cluster.Scheduler.{DefaultJobTracker, consume_event, consume_all, started_leading}
use common_tools.Cluster.Scheduler.Mirror.{
  Mirrors, started_leading-Mirrors, started_following-Mirrors, stopped_leading-Mirrors,
  stopped_following-Mirrors,
}

-- The member is not closed, nor is its channel.
pub record IsOpen (c : Cluster) : Type 0 where
  pub channel : drops c ≡ false
  pub state : is_closed c ≡ false

abbrev pub event_of : Cluster → EventName × String → Event
event_of c (name, leader) = record {
  name = name;
  cluster_stat = c.sate;
  node_name = get_my_name c;
  leader_name = leader;
}

create_event-open :
    (name : EventName) (leader : String) (c : Cluster)
    → IsOpen c
    → create_event name leader c ≡ record c { events = c.events ++ event_of c (name, leader) ∷ [] }
unfolding create_event
create_event-open name leader c o = rw (o.channel, o.state, create_event) refl

send_all-open :
    (evs : List (EventName × String)) (c : Cluster)
    → IsOpen c
    → send_all evs c ≡ record c { events = c.events ++ map (event_of c) evs }
send_all-open [] c o = ap (λ es. record c { events = es }) (sym (append-nil c.events))
send_all-open ((name, leader) ∷ evs) c o =
    ap (send_all evs) (create_event-open name leader c o)
    ∙ send_all-open evs (record c { events = c.events ++ event_of c (name, leader) ∷ [] })
        (record { channel = o.channel; state = o.state })
    ∙ ap (λ es. record c { events = es })
        (append_assoc c.events (event_of c (name, leader) ∷ []) (map (event_of c) evs))

-- The states that `signLeader` and the releases reach before they send their events.
abbrev pub as_leader : String → ℕ → Cluster → Cluster
as_leader node term c = record c {
  sate = Sate.leader;
  lost_leader_time = none;
  leader_node = some node;
  term = term;
}

abbrev pub as_follower : ℕ → String → ℕ → Cluster → Cluster
as_follower now node term c = record c {
  sate = Sate.follower;
  cur_node = update_heartbeat now c.cur_node;
  lost_leader_time = none;
  leader_node = some node;
  term = term;
}

abbrev pub without_leader : ℕ → Cluster → Cluster
without_leader now c = record c {
  sate = Sate.follower;
  lost_leader_time = some now;
  leader_node = none;
}

module _ {C : Type 0} where
  consume_all-append :
      (evs more : List Event) (t : DefaultJobTracker C)
      → consume_all (evs ++ more) t ≡ consume_all more (consume_all evs t)
  consume_all-append [] more t = refl
  consume_all-append (ev ∷ evs) more t = consume_all-append evs more (consume_event ev t)

  consume_all-last :
      (f : EventName × String → Event) (xs : List (EventName × String)) (y : EventName × String)
      (t : DefaultJobTracker C)
      → consume_all (map f (xs ++ y ∷ [])) t ≡ consume_event (f y) (consume_all (map f xs) t)
  consume_all-last f [] y t = refl
  consume_all-last f (x ∷ xs) y t = consume_all-last f xs y (consume_event (f x) t)

  module _ (t0 : DefaultJobTracker C) where
    -- A tracker that was `t0` when the member started, and has had all the events since.
    abbrev pub tracker : Cluster → DefaultJobTracker C
    tracker c = consume_all c.events t0

    -- The member is open, and its tracker mirrors its leader.
    pub record Tracks (c : Cluster) : Type 0 where
      pub is_open : IsOpen c
      pub mirrors : Mirrors (get_my_name c) c.leader_node (tracker c)

    pub unsign-Mirrors :
        (c d : Cluster) (l : String) (t : DefaultJobTracker C)
        → Mirrors (get_my_name c) (some l) t
        → Mirrors (get_my_name c) none (consume_event (event_of d (unsign_event c l, "")) t)
    unfolding unsign_event consume_event
    unsign-Mirrors c d l t m = elim (Bool-cases (str_eq l (get_my_name c))) [
      | inl mine ↦ rw (mine, unsign_event) (stopped_leading-Mirrors (get_my_name c) l t mine m)
      | inr other ↦ rw (other, unsign_event) (stopped_following-Mirrors (get_my_name c) l t other m)
    ]

    -- Giving up the present leader, if there is one.
    released-Mirrors :
        (c d : Cluster) (t : DefaultJobTracker C)
        → Mirrors (get_my_name c) c.leader_node t
        → Mirrors (get_my_name c) none (consume_all (map (event_of d) (released c)) t)
    unfolding released
    released-Mirrors c d t m = elim (Option-cases c.leader_node) [
      | inl alone ↦ rw (alone, released) (subst (λ o. Mirrors (get_my_name c) o t) alone m)
      | inr (l, led) ↦
          rw (led, released)
            (unsign-Mirrors c d l t (subst (λ o. Mirrors (get_my_name c) o t) led m))
    ]

    -- A tracker that has nothing to stop starts with the new leader.
    sign-Mirrors :
        (c d : Cluster) (node : String) (t : DefaultJobTracker C)
        → Mirrors (get_my_name c) none t
        → let name = if str_eq node (get_my_name c) then sign_master else sign_follower in
          Mirrors (get_my_name c) (some node) (consume_event (event_of d (name, node)) t)
    unfolding consume_event
    sign-Mirrors c d node t m =
        let me = get_my_name c in
        let after : Bool → Type 0 = λ b.
          Mirrors me (some node)
            (consume_event (event_of d ((if b then sign_master else sign_follower), node)) t) in
        elim (Bool-cases (str_eq node me)) [
          | inl mine ↦ subst after (sym mine) (
              subst (λ n. Mirrors me (some n) (started_leading t)) (sym ((eq_iff node me).0 mine))
                (started_leading-Mirrors me t m))
          | inr other ↦ subst after (sym other) (started_following-Mirrors me node t other m)
        ]

    -- The events of a new state, after those of the old one.
    pub sent-Tracks :
        (c d : Cluster) (evs : List (EventName × String))
        → IsOpen d
        → d.events ≡ c.events
        → Mirrors (get_my_name d) d.leader_node (consume_all (map (event_of d) evs) (tracker c))
        → Tracks (send_all evs d)
    sent-Tracks c d evs o same m = subst Tracks (sym (send_all-open evs d o)) (record {
      is_open = record { channel = o.channel; state = o.state };
      mirrors =
          subst (Mirrors (get_my_name d) d.leader_node)
            (ap (λ es. consume_all (map (event_of d) evs) (consume_all es t0)) (sym same)
              ∙ sym (consume_all-append d.events (map (event_of d) evs) t0))
            m;
    })

    pub takes-Mirrors :
        (c d : Cluster) (node : String) (name : EventName) (t : DefaultJobTracker C)
        → name ≡ (if str_eq node (get_my_name c) then sign_master else sign_follower)
        → Mirrors (get_my_name c) c.leader_node t
        → Mirrors
            (get_my_name c)
            (some node)
            (consume_all (map (event_of d) (released c ++ (name, node) ∷ [])) t)
    takes-Mirrors c d node name t e m =
        let idle = consume_all (map (event_of d) (released c)) t in
        subst (Mirrors (get_my_name c) (some node))
          (ap (λ n. consume_event (event_of d (n, node)) idle) (sym e)
            ∙ sym (consume_all-last (event_of d) (released c) (name, node) t))
          (sign-Mirrors c d node idle (released-Mirrors c d t m))
