-- ===== src/Kafka/Client/Front.antt =====
-- The loop of the commit takes the done front of a queue.
use common_tools.Prelude.{
  ℕ, zero, suc, ◌<◌, ◌≡◌, ◌⊎◌, inl, inr, refl, ap, sym, subst, arith, Option-cases, Bool-cases,
  true, Option, none, some, List, [], ◌∷◌, ◌++◌, length, get_elem?, All,
}
use common_tools.Prelude.Run.{Returns, returns, Returns-weaken}
use common_tools.Basic.RingQueue.{SafeRingQueue, dequeue}
use common_tools.Basic.RingQueue.Fifo.{Holds, dequeue_refines}
use common_tools.Kafka.Consumer.{Item, is_done, last_of, last_message, completed_queue_item}
use common_tools.Kafka.Client.{at_pointer, commit_loop}

last_of-cons : (x : ℕ) (xs : List ℕ) (i : ℕ) → last_of xs ≡ some i → last_of (x ∷ xs) ≡ some i
last_of-cons x [] i h = absurd (ground arith)
last_of-cons x (y ∷ ys) i h = h

module _ {M : Type 0} (items : List (Item M)) where
  -- The item at a pointer is marked.
  abbrev pub IsDone : ℕ → Type 0
  IsDone i = (item : Item M) × (get_elem? items i ≡ some item) × (is_done item ≡ true)

  -- The message is the last one of the item at the last of the pointers.
  abbrev pub LastOf : List ℕ → M → Type 0
  LastOf gone m =
      (i : ℕ) × (last_of gone ≡ some i)
      × (item : Item M) × (get_elem? items i ≡ some item)
      × (last_message item ≡ some m)

  -- Nothing is left, or the first item left is not completed.
  abbrev pub Stops : List ℕ → Type 0
  Stops [] = Unit
  Stops (i ∷ _) = completed_queue_item (get_elem? items i) ≡ none

  -- The queue `xs` has lost the items of `gone`, which are all done, and keeps `kept`.
  pub record Popped (xs : List ℕ) (last : Option M) (r : SafeRingQueue ℕ × Option M) : Type 0 where
    pub gone : List ℕ
    pub kept : List ℕ
    pub split : xs ≡ gone ++ kept
    pub holds : Holds r.0 kept
    pub all_done : All IsDone gone
    pub reported : ((gone ≡ []) × (r.1 ≡ last)) ⊎ ((m : M) × (r.1 ≡ some m) × LastOf gone m)
    pub stops : Stops kept

  completed_queue_item-some :
      (i : ℕ) (m : M)
      → completed_queue_item (get_elem? items i) ≡ some m
      → (item : Item M) × (get_elem? items i ≡ some item)
        × (is_done item ≡ true)
        × (last_message item ≡ some m)
  unfolding completed_queue_item
  completed_queue_item-some i m h = elim (Option-cases (get_elem? items i)) [
    | inl absent ↦ absurd (ground arith)
    | inr (item, found) ↦ elim (Bool-cases (is_done item)) [
      | inl done ↦ (item, found, done, ground arith)
      | inr undone ↦ absurd (ground arith)
    ]
  ]

  -- One more done item in front.
  cons-Popped :
      (x : ℕ) (ys : List ℕ) (last : Option M) (m : M) (r : SafeRingQueue ℕ × Option M)
      → completed_queue_item (get_elem? items x) ≡ some m
      → Popped ys (some m) r
      → Popped (x ∷ ys) last r
  cons-Popped x ys last m r h p =
      let (item, found, done, its) = completed_queue_item-some x m h in
      record {
        gone = x ∷ p.gone;
        kept = p.kept;
        split = ap (◌∷◌ x) p.split;
        holds = p.holds;
        all_done = ((item, found, done), p.all_done);
        reported = elim p.reported [
          | inl (no_more, r) ↦ inr (m, r, (x, ap (λ g. last_of (x ∷ g)) no_more, item, found, its))
          | inr (n, r, (i, end, other, at, msg)) ↦
              inr (n, r, (i, last_of-cons x p.gone i end, other, at, msg))
        ];
        stops = p.stops;
      }

  -- The loop over a queue that holds `xs`, with more rounds than it has items, ends: it takes the longest
  -- front of items that are marked and have a message, and reports the last message of the last of them.
  pub commit_loop_lem :
      (k : ℕ) (xs : List ℕ) (q : SafeRingQueue ℕ) (last : Option M)
      → Holds q xs
      → length xs < k
      → Returns (Popped xs last) (commit_loop k items q last)
  unfolding commit_loop
  commit_loop_lem zero xs q last h more = absurd (omega arith)
  commit_loop_lem (suc k) xs q last h more = elim (dequeue_refines xs h) [
    | inl (none_left, _, look) ↦
        rw (look, commit_loop)
          (returns (q, last)
            (record {
              gone = [];
              kept = [];
              split = none_left;
              holds = subst (Holds q) none_left h;
              all_done = tt;
              reported = inl (refl, refl);
              stops = tt;
            }))
    | inr (x, ys, e, _, look, rest) ↦
        elim (Option-cases (completed_queue_item (get_elem? items x))) [
          | inl undone ↦
              rw (look, at_pointer, undone, commit_loop)
                (returns (q, last)
                  (record {
                    gone = [];
                    kept = x ∷ ys;
                    split = e;
                    holds = subst (Holds q) e h;
                    all_done = tt;
                    reported = inl (refl, refl);
                    stops = undone;
                  }))
          | inr (m, done) ↦
              rw (look, at_pointer, done, commit_loop)
                (Returns-weaken
                  (commit_loop_lem k ys (dequeue q).0 (some m) rest (omega (arith, ap length e)))
                  (λ r p.
                    subst (λ zs. Popped zs last r) (sym e) (cons-Popped x ys last m r done p)))
        ]
  ]
