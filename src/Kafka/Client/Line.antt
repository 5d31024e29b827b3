-- ===== src/Kafka/Client/Line.antt =====
-- One partition's queue against what its claim has received.
use common_tools.Prelude.{
  ℕ, ◌≡◌, ◌⊎◌, inl, inr, ap, sym, ◌∙◌, subst, Option, none, some, List, [], ◌∷◌, ◌++◌, append_assoc,
  append-nil, All, All-append, All-weaken,
}
use common_tools.Basic.RingQueue.{SafeRingQueue, ok, full, new_safe_ring_queue, enqueue}
use common_tools.Basic.RingQueue.Fifo.{Holds, new-Holds, enqueue_refines}
use common_tools.Kafka.Consumer.{Item}
use common_tools.Kafka.Client.Front.{IsDone, Popped}

-- The item that the claim has not queued yet.
abbrev pub waiting_one : Option ℕ → List ℕ
waiting_one none = []
waiting_one (some i) = i ∷ []

module _ {M : Type 0} where
  -- What was received is what has left the queue, all of it done, then what the queue holds, then
  -- what waits before it.
  pub record Line (items : List (Item M)) (all : List ℕ) (next : Option ℕ) (q : SafeRingQueue ℕ)
      : Type 0 where
    pub gone : List ℕ
    pub kept : List ℕ
    pub holds : Holds q kept
    pub split : all ≡ (gone ++ kept) ++ waiting_one next
    pub all_done : All (IsDone items) gone

  -- The same for a key that may have no queue yet.
  abbrev pub Fits : List (Item M) → List ℕ → Option ℕ → Option (SafeRingQueue ℕ) → Type 0
  Fits items all next none = all ≡ waiting_one next
  Fits items all next (some q) = Line items all next q

  -- Marked items stay marked, wherever they are.
  abbrev pub StayDone : List (Item M) → List (Item M) → Type 0
  StayDone items later = (i : ℕ) → IsDone items i → IsDone later i

  pub Fits-later :
      (items later : List (Item M)) (all : List ℕ) (next : Option ℕ) (o : Option (SafeRingQueue ℕ))
      → StayDone items later
      → Fits items all next o
      → Fits later all next o
  Fits-later items later all next none keep f = f
  Fits-later items later all next (some q) keep f = record {
    gone = f.gone;
    kept = f.kept;
    holds = f.holds;
    split = f.split;
    all_done = All-weaken (IsDone items) (IsDone later) f.gone keep f.all_done;
  }

  pub Fits-receive :
      (items : List (Item M)) (all : List ℕ) (i : ℕ) (o : Option (SafeRingQueue ℕ))
      → Fits items all none o
      → Fits items (all ++ i ∷ []) (some i) o
  Fits-receive items all i none f = ap (λ xs. xs ++ i ∷ []) f
  Fits-receive items all i (some q) f = record {
    gone = f.gone;
    kept = f.kept;
    holds = f.holds;
    split = ap (λ xs. xs ++ i ∷ []) (f.split ∙ append-nil (f.gone ++ f.kept));
    all_done = f.all_done;
  }

  -- Queueing the item that waits works, or is refused and changes nothing.
  Line-admit :
      (items : List (Item M)) (all : List ℕ) (i : ℕ) (q : SafeRingQueue ℕ)
      → Line items all (some i) q
      → (((enqueue i q).1 ≡ ok tt) × Line items all none (enqueue i q).0)
        ⊎ (((enqueue i q).1 ≡ full) × Line items all (some i) (enqueue i q).0)
  Line-admit items all i q f = elim (enqueue_refines i f.holds) [
    | inl (_, refused) ↦
        inr (ap (λ r. r.1) refused, subst (λ r. Line items all (some i) r.0) (sym refused) f)
    | inr (_, taken, holds) ↦ inl (
      taken,
      record {
        gone = f.gone;
        kept = f.kept ++ i ∷ [];
        holds = holds;
        split =
            f.split
            ∙ append_assoc f.gone f.kept (i ∷ [])
            ∙ sym (append-nil (f.gone ++ (f.kept ++ i ∷ [])));
        all_done = f.all_done;
      },
    )
  ]

  -- A new queue for a key that has none.
  new-Line :
      (items : List (Item M)) (all : List ℕ) (i capacity : ℕ)
      → all ≡ i ∷ []
      → Line items all (some i) (new_safe_ring_queue capacity)
  new-Line items all i capacity h = record {
    gone = [];
    kept = [];
    holds = new-Holds capacity;
    split = h;
    all_done = tt;
  }

  pub Fits-admit :
      (items : List (Item M)) (all : List ℕ) (i capacity : ℕ) (o : Option (SafeRingQueue ℕ))
      → Fits items all (some i) o
      → let r = enqueue i (elim o [ some q ↦ q | none ↦ new_safe_ring_queue capacity ]) in
        ((r.1 ≡ ok tt) × Line items all none r.0) ⊎ ((r.1 ≡ full) × Line items all (some i) r.0)
  Fits-admit items all i capacity none f =
      Line-admit items all i (new_safe_ring_queue capacity) (new-Line items all i capacity f)
  Fits-admit items all i capacity (some q) f = Line-admit items all i q f

  -- The loop of the commit takes the line's front.
  pub Popped-Line :
      (items : List (Item M)) (all : List ℕ) (next : Option ℕ) (q : SafeRingQueue ℕ)
      (last : Option M) (r : SafeRingQueue ℕ × Option M) (f : Line items all next q)
      → Popped items f.kept last r
      → Line items all next r.0
  Popped-Line items all next q last r f p = record {
    gone = f.gone ++ p.gone;
    kept = p.kept;
    holds = p.holds;
    split =
        f.split
        ∙ ap (λ xs. (f.gone ++ xs) ++ waiting_one next) p.split
        ∙ ap (λ xs. xs ++ waiting_one next) (sym (append_assoc f.gone p.gone p.kept));
    all_done = All-append (IsDone items) f.gone p.gone f.all_done p.all_done;
  }
