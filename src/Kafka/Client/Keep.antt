-- ===== src/Kafka/Client/Keep.antt =====
-- The invariant of a consumer's client, and the steps that keep it.
use common_tools.Prelude.{
  ℕ, zero, suc, ◌≡◌, ◌⊎◌, inl, inr, refl, ap, sym, ◌∙◌, subst, Bool, true, false, Option, none,
  some, List, [], ◌∷◌, ◌++◌, String, length, get_elem?, Option-cases, Bool-cases, arith, str_eq,
  eq_iff,
}
use common_tools.Basic.RingQueue.{SafeRingQueue}
use common_tools.Kafka.Consumer.{Config, Item, is_done}
use common_tools.Kafka.Client.{Client, set_key, new_client, receive, admit}
use common_tools.Kafka.Client.Line.{Line, Fits, StayDone, Fits-later, Fits-receive, Fits-admit}
use common_tools.Kafka.Client.Steps.{Log, received, received_of, Dealt}

module _ {A : Type 0} where
  get_elem?-append_old :
      (xs ys : List A) (i : ℕ) (v : A) → get_elem? xs i ≡ some v → get_elem? (xs ++ ys) i ≡ some v
  get_elem?-append_old [] ys i v h = absurd (ground arith)
  get_elem?-append_old (x ∷ xs) ys zero v h = h
  get_elem?-append_old (x ∷ xs) ys (suc i) v h = get_elem?-append_old xs ys i v h

  -- The new element is the only new one.
  get_elem?-append_one :
      (xs : List A) (y : A) (i : ℕ) (v : A)
      → get_elem? (xs ++ y ∷ []) i ≡ some v
      → (get_elem? xs i ≡ some v) ⊎ (v ≡ y)
  get_elem?-append_one [] y zero v h = inr (ground arith)
  get_elem?-append_one [] y (suc i) v h = absurd (ground arith)
  get_elem?-append_one (x ∷ xs) y zero v h = inl h
  get_elem?-append_one (x ∷ xs) y (suc i) v h = get_elem?-append_one xs y i v h

module _ {E M : Type 0} (c : Config) where
  -- Every queue is in line with what its claim has received, and every marked item was dealt with.
  pub record Inv (h : List (Log E M)) (s : Client M) : Type 0 where
    pub line : (k : String) → Fits s.items (received_of k h) (s.pending k) (s.queues k)
    pub dealt :
        (i : ℕ) (item : Item M)
        → get_elem? s.items i ≡ some item
        → is_done item ≡ true
        → Dealt c h i item

  pub new-Inv : Inv [] new_client
  new-Inv = record { line = λ k. refl; dealt = λ i item found done. absurd (ground arith) }

  receive-line :
      (h : List (Log E M)) (s : Client M) (k : String) (item : Item M) (j : String)
      → s.pending k ≡ none
      → Inv h s
      → Fits
          (s.items ++ item ∷ [])
          (received_of j (received k (length s.items) ∷ h))
          (set_key k (some (length s.items)) s.pending j)
          (s.queues j)
  receive-line h s k item j idle inv =
      let later = Fits-later s.items (s.items ++ item ∷ []) (received_of j h) in
      let keep : StayDone s.items (s.items ++ item ∷ []) =
        λ i d. (d.0, get_elem?-append_old s.items (item ∷ []) i d.0 d.1, d.2) in
      elim (Bool-cases (str_eq k j)) [
        | inl same ↦
            let none_waits : s.pending j ≡ none = ap s.pending (sym ((eq_iff k j).0 same)) ∙ idle in
            let before : Fits s.items (received_of j h) none (s.queues j) =
              subst (λ o. Fits s.items (received_of j h) o (s.queues j)) none_waits (inv.line j) in
            rw same (
              Fits-receive (s.items ++ item ∷ []) (received_of j h) (length s.items) (s.queues j)
                (later none (s.queues j) keep before))
        | inr other ↦ rw other (later (s.pending j) (s.queues j) keep (inv.line j))
      ]

  pub receive-Inv :
      (h : List (Log E M)) (s : Client M) (batch_mode : Bool) (k : String) (item : Item M)
      → is_done item ≡ false
      → s.pending k ≡ none
      → Inv h s
      → Inv (received k (length s.items) ∷ h) (receive batch_mode k item s)
  unfolding receive
  receive-Inv h s batch_mode k item new idle inv =
      rw (idle, receive)
        (record {
          line = λ j. receive-line h s k item j idle inv;
          dealt = λ i x found done. elim (get_elem?-append_one s.items item i x found) [
            | inl old ↦ inv.dealt i x old done
            | inr same ↦ absurd (ground (arith, new, ap is_done same))
          ];
        })

  -- A queue is replaced, and perhaps its claim has nothing more to wait for.
  pub replace-Inv :
      (h : List (Log E M)) (s t : Client M) (k : String) (next : Option ℕ) (q : SafeRingQueue ℕ)
      → t.items ≡ s.items
      → t.pending k ≡ next
      → ((j : String) → str_eq k j ≡ false → t.pending j ≡ s.pending j)
      → t.queues ≡ set_key k (some q) s.queues
      → Line s.items (received_of k h) next q
      → Inv h s
      → Inv h t
  replace-Inv h s t k next q same_items now others new_queues l inv = record {
    line = λ j.
        rw (same_items, new_queues)
          (elim (Bool-cases (str_eq k j)) [
            | inl same ↦
                let at = (eq_iff k j).0 same in
                rw (same, ap t.pending (sym at) ∙ now)
                  (subst (λ x. Line s.items (received_of x h) next q) at l)
            | inr other ↦ rw (other, others j other) (inv.line j)
          ]);
    dealt = λ i x found done.
        inv.dealt i x (ap (λ items. get_elem? items i) (sym same_items) ∙ found) done;
  }

  pub admit-Inv :
      (h : List (Log E M)) (s : Client M) (batch_mode : Bool) (capacity : ℕ) (k : String)
      → Inv h s
      → Inv h (admit batch_mode capacity k s)
  unfolding admit
  admit-Inv h s batch_mode capacity k inv = elim (Option-cases (s.pending k)) [
    | inl idle ↦ rw (idle, admit) inv
    | inr (i, waits) ↦
        let before : Fits s.items (received_of k h) (some i) (s.queues k) =
          subst (λ o. Fits s.items (received_of k h) o (s.queues k)) waits (inv.line k) in
        elim (Fits-admit s.items (received_of k h) i capacity (s.queues k) before) [
          | inl (taken, l) ↦
              rw (waits, taken, admit)
                (replace-Inv h s _ k none _ refl (rw ((eq_iff k k).1 refl) refl)
                  (λ j other. rw other refl) refl l inv)
          | inr (refused, l) ↦
              rw (waits, refused, admit)
                (replace-Inv h s _ k (some i) _ refl waits (λ j other. refl) refl l inv)
        ]
  ]
