-- ===== src/Kafka/Client/Commit.antt =====
-- What a committed message stands for.
use common_tools.Prelude.{
  ℕ, suc, ◌≡◌, ◌⊎◌, inl, inr, refl, ap, sym, ◌∙◌, subst, Option, none, some, List, [], ◌∷◌, ◌++◌,
  String, get_elem?, Option-cases, Bool-cases, arith, All, All-append, All-weaken, append_assoc,
  contains, if◌then◌else◌,
}
use common_tools.Prelude.Run.{Returns, returns, Returns-bind}
use common_tools.Basic.RingQueue.{SafeRingQueue}
use common_tools.Kafka.Consumer.{Config, Item, last_of}
use common_tools.Kafka.Client.{
  Client, set_key, commit, store_commit, commit_completed_offsets, delete_queues,
}
use common_tools.Kafka.Client.Front.{IsDone, LastOf, Popped, commit_loop_lem}
use common_tools.Kafka.Client.Line.{Line, Fits, Popped-Line, waiting_one}
use common_tools.Kafka.Client.Keep.{Inv, replace-Inv}
use common_tools.Kafka.Client.Steps.{Log, closed, received_of, Dealt}

last_of-append : (xs ys : List ℕ) (i : ℕ) → last_of ys ≡ some i → last_of (xs ++ ys) ≡ some i
last_of-append [] ys i h = h
last_of-append (x ∷ []) [] i h = absurd (ground arith)
last_of-append (x ∷ []) (y ∷ ys) i h = h
last_of-append (x ∷ z ∷ xs) ys i h = last_of-append (z ∷ xs) ys i h

module _ {E M : Type 0} (c : Config) (h : List (Log E M)) where
  -- The item at the pointer was dealt with.
  abbrev pub DealtAt : List (Item M) → ℕ → Type 0
  DealtAt items i = (item : Item M) × (get_elem? items i ≡ some item) × Dealt c h i item

  -- A commit for the key marks nothing; or it marks the last message of one of the items that the
  -- key's claim has received, and all items up to it were dealt with.
  abbrev pub Covers : String → Client M → Client M → Type 0
  Covers k s r =
      (r.marks ≡ s.marks)
      ⊎ ((m : M) × (r.marks ≡ (k, m) ∷ s.marks)
          × (upto : List ℕ) × (rest : List ℕ) × (received_of k h ≡ upto ++ rest)
          × LastOf s.items upto m
          × All (DealtAt s.items) upto)

  LastOf-append :
      (items : List (Item M)) (xs ys : List ℕ) (m : M)
      → LastOf items ys m
      → LastOf items (xs ++ ys) m
  LastOf-append items xs ys m (i, last, rest, at, msg) =
      (i, last_of-append xs ys i last, rest, at, msg)

  -- What the loop has popped, as marks.
  Popped-Covers :
      (k : String) (s r : Client M) (q : SafeRingQueue ℕ) (out : SafeRingQueue ℕ × Option M)
      (f : Line s.items (received_of k h) (s.pending k) q) (p : Popped s.items f.kept none out)
      → Inv c h s
      → r.marks
        ≡ elim out.1 [ none ↦ s.marks | some m ↦ if s.session then (k, m) ∷ s.marks else s.marks ]
      → Covers k s r
  Popped-Covers k s r q out f p inv marks = elim p.reported [
    | inl (_, nothing) ↦ inl ground (arith, marks)
    | inr (m, last, its) ↦ elim (Bool-cases s.session) [
      | inr closed_now ↦ inl ground (arith, marks)
      | inl live ↦ inr (
        m,
        ground (arith, marks),
        (f.gone ++ p.gone),
        p.kept ++ waiting_one (s.pending k),
        f.split
            ∙ ap (λ xs. (f.gone ++ xs) ++ waiting_one (s.pending k)) p.split
            ∙ ap (λ xs. xs ++ waiting_one (s.pending k)) (sym (append_assoc f.gone p.gone p.kept))
            ∙ append_assoc (f.gone ++ p.gone) p.kept (waiting_one (s.pending k)),
        LastOf-append s.items f.gone p.gone m its,
        let done = All-append (IsDone s.items) f.gone p.gone f.all_done p.all_done in
            All-weaken (IsDone s.items) (DealtAt s.items) (f.gone ++ p.gone)
              (λ i d. (d.0, d.1, inv.dealt i d.0 d.1 d.2)) done,
      )
    ]
  ]

  -- One key is committed.
  pub commit-lem :
      (k : String) (s : Client M) → Inv c h s → Returns (λ r. Inv c h r × Covers k s r) (commit k s)
  unfolding commit
  commit-lem k s inv = elim (Option-cases (s.queues k)) [
    | inl no_queue ↦ rw (no_queue, commit) (returns s (inv, inl refl))
    | inr (q, found) ↦
        let f : Line s.items (received_of k h) (s.pending k) q =
          subst (Fits s.items (received_of k h) (s.pending k)) found (inv.line k) in
        rw (found, commit)
          (Returns-bind _
            (commit_loop_lem s.items (suc q.size) f.kept q none f.holds
              (omega (arith, f.holds.count)))
            (λ out p.
              let popped = Popped-Line s.items (received_of k h) (s.pending k) q none out f p in
              returns (store_commit k s out) (
                replace-Inv c h s (store_commit k s out) k (s.pending k) out.0 refl refl
                    (λ j other. refl) refl popped inv,
                Popped-Covers k s (store_commit k s out) q out f p inv refl,
              )))
  ]

  pub commit_completed_offsets-Inv :
      (ks : List String) (s : Client M)
      → Inv c h s
      → Returns (Inv c h) (commit_completed_offsets ks s)
  unfolding commit_completed_offsets
  commit_completed_offsets-Inv [] s inv = returns s inv
  commit_completed_offsets-Inv (k ∷ ks) s inv =
      Returns-bind _ (commit-lem k s inv) (λ r p. commit_completed_offsets-Inv ks r p.0)

  -- After `Cleanup` of some keys.
  pub delete-Inv :
      (ks : List String) (s t : Client M)
      → t.items ≡ s.items
      → ((j : String) → t.queues j ≡ (if contains j ks then none else s.queues j))
      → ((j : String) → t.pending j ≡ (if contains j ks then none else s.pending j))
      → Inv c h s
      → Inv c (closed ks ∷ h) t
  delete-Inv ks s t items queues pending inv = record {
    line = λ j.
        rw (items, queues j, pending j)
          (elim (Bool-cases (contains j ks)) [
            | inl gone ↦ rw gone refl
            | inr stays ↦ rw stays (inv.line j)
          ]);
    dealt = λ i x found done. inv.dealt i x (ap (λ l. get_elem? l i) (sym items) ∙ found) done;
  }

module _ {M : Type 0} where
  -- What is left for a key after the deletions.
  pub delete_queues_lem :
      (ks : List String) (s : Client M) (j : String)
      → ((delete_queues ks s).items ≡ s.items)
        × ((delete_queues ks s).queues j ≡ (if contains j ks then none else s.queues j))
        × ((delete_queues ks s).pending j ≡ (if contains j ks then none else s.pending j))
  unfolding delete_queues contains
  delete_queues_lem [] s j = (refl, refl, refl)
  delete_queues_lem (k ∷ ks) s j =
      let t : Client M = record s {
        queues = set_key k none s.queues;
        pending = set_key k none s.pending;
      } in
      let (a, b, d) = delete_queues_lem ks t j in ground (arith, a, b, d)
