-- ===== src/Kafka/Client/Finish.antt =====
-- The end of a worker's round keeps the client's invariant.
use common_tools.Prelude.{
  ℕ, zero, suc, ◌≡◌, ◌⊎◌, inl, inr, refl, ap, sym, ◌∙◌, subst, true, false, some, List, [], ◌∷◌,
  get_elem?, set, Option-cases, Bool-cases, arith,
}
use common_tools.Kafka.Consumer.{
  Config, Item, msg_item, batch_item, is_done, process_message, process_batch, settle, ConsumeState,
  Verdict, completed, later, left,
}
use common_tools.Kafka.Consumer.Account.{
  Ground, process_message_lem, process_batch-done, process_batch_keeps,
}
use common_tools.Kafka.Client.{Client, Work, finish, has}
use common_tools.Kafka.Client.Line.{StayDone, Fits-later}
use common_tools.Kafka.Client.Keep.{Inv}
use common_tools.Kafka.Client.Steps.{Log, received, worked, closed, received_of, Accounts, Dealt}

module _ {A : Type 0} where
  get_elem?-set_inv :
      (xs : List A) (i j : ℕ) (v x : A)
      → get_elem? (set xs i v) j ≡ some x
      → ((i ≡ j) × (x ≡ v)) ⊎ (get_elem? xs j ≡ some x)
  get_elem?-set_inv [] i j v x h = inr h
  get_elem?-set_inv (y ∷ ys) zero zero v x h = inl (refl, ground arith)
  get_elem?-set_inv (y ∷ ys) zero (suc j) v x h = inr h
  get_elem?-set_inv (y ∷ ys) (suc i) zero v x h = inr h
  get_elem?-set_inv (y ∷ ys) (suc i) (suc j) v x h = elim (get_elem?-set_inv ys i j v x h) [
    | inl (e, f) ↦ inl (ap suc e, f)
    | inr g ↦ inr g
  ]

  get_elem?-set_keep :
      (xs : List A) (i j : ℕ) (v x : A)
      → get_elem? xs j ≡ some x
      → ((i ≡ j) × (get_elem? (set xs i v) j ≡ some v)) ⊎ (get_elem? (set xs i v) j ≡ some x)
  get_elem?-set_keep [] i j v x h = inr h
  get_elem?-set_keep (y ∷ ys) zero zero v x h = inl (refl, refl)
  get_elem?-set_keep (y ∷ ys) zero (suc j) v x h = inr h
  get_elem?-set_keep (y ∷ ys) (suc i) zero v x h = inr h
  get_elem?-set_keep (y ∷ ys) (suc i) (suc j) v x h = elim (get_elem?-set_keep ys i j v x h) [
    | inl (e, f) ↦ inl (ap suc e, f)
    | inr g ↦ inr g
  ]

module _ {M : Type 0} where
  -- Writing an item that stays marked.
  set-StayDone :
      (items : List (Item M)) (i : ℕ) (old new : Item M)
      → get_elem? items i ≡ some old
      → (is_done old ≡ true → is_done new ≡ true)
      → StayDone items (set items i new)
  set-StayDone items i old new at keep j (x, found, done) =
      elim (get_elem?-set_keep items i j new x found) [
        | inl (e, f) ↦
            let same : x ≡ old = ground (arith, found, at, e) in
            (new, f, keep (ap is_done (sym same) ∙ done))
        | inr f ↦ (x, f, done)
      ]

settle-done :
    (r : ConsumeState × Verdict) → (settle r).done ≡ true → (r.0.done ≡ true) ⊎ (r.1 ≡ completed)
unfolding settle
settle-done (s, completed) h = inr refl
settle-done (s, later) h = inl h
settle-done (s, left) h = inl h

settle_keeps : (r : ConsumeState × Verdict) → r.0.done ≡ true → (settle r).done ≡ true
unfolding settle
settle_keeps (s, completed) h = refl
settle_keeps (s, later) h = h
settle_keeps (s, left) h = h

module _ {E M : Type 0} (c : Config) where
  -- What deals with one item deals with another of the same messages.
  Dealt-same :
      (h : List (Log E M)) (i : ℕ) (old new : Item M)
      → ((w : Work E M) → Accounts c w old → Accounts c w new)
      → Dealt c h i old
      → Dealt c h i new
  Dealt-same [] i old new same d = d
  Dealt-same (received _ _ ∷ h) i old new same d = Dealt-same h i old new same d
  Dealt-same (closed _ ∷ h) i old new same d = Dealt-same h i old new same d
  Dealt-same (worked j w ∷ h) i old new same (inl (e, a)) = inl (e, same w a)
  Dealt-same (worked j w ∷ h) i old new same (inr d) = inr (Dealt-same h i old new same d)

  set-Dealt :
      (h : List (Log E M)) (i : ℕ) (w : Work E M) (old new : Item M)
      → ((v : Work E M) → Accounts c v old → Accounts c v new)
      → (is_done old ≡ false → is_done new ≡ true → Accounts c w new)
      → (is_done old ≡ true → Dealt c h i old)
      → is_done new ≡ true
      → Dealt c (worked i w ∷ h) i new
  set-Dealt h i w old new same mark before done = elim (Bool-cases (is_done old)) [
    | inl was ↦ inr (Dealt-same h i old new same (before was))
    | inr not_yet ↦ inl (refl, mark not_yet done)
  ]

  -- The item at one pointer is replaced by one of the same messages, which is marked only if the
  -- old one was or the work deals with it.
  set-Inv :
      (h : List (Log E M)) (i : ℕ) (w : Work E M) (s t : Client M) (old new : Item M)
      → t.items ≡ set s.items i new
      → t.pending ≡ s.pending
      → t.queues ≡ s.queues
      → get_elem? s.items i ≡ some old
      → ((v : Work E M) → Accounts c v old → Accounts c v new)
      → (is_done old ≡ true → is_done new ≡ true)
      → (is_done old ≡ false → is_done new ≡ true → Accounts c w new)
      → Inv c h s
      → Inv c (worked i w ∷ h) t
  set-Inv h i w s t old new items pending queues at same keep mark inv = record {
    line = λ k.
        rw (items, pending, queues)
          (Fits-later s.items (set s.items i new) (received_of k h) (s.pending k) (s.queues k)
            (set-StayDone s.items i old new at keep) (inv.line k));
    dealt = λ j x found done.
        elim (get_elem?-set_inv s.items i j new x (ap (λ l. get_elem? l j) (sym items) ∙ found)) [
          | inl (e, f) ↦
              let d =
                set-Dealt h i w old new same mark (inv.dealt i old at)
                  (ap is_done (sym f) ∙ done) in
              subst (λ y. Dealt c (worked i w ∷ h) y x) e
                (subst (λ y. Dealt c (worked i w ∷ h) i y) (sym f) d)
          | inr old_one ↦ inr (inv.dealt j x old_one done)
        ];
  }

  -- A message that a worker marks was dealt with.
  message-Accounts :
      (w : Work E M) (state : ConsumeState) (m : M)
      → let r = process_message c w.running w.ctx w.dead m (w.called m) state in
        state.done ≡ false → (settle r).done ≡ true → Accounts c w (msg_item state m)
  message-Accounts w state m new done =
      let r = process_message c w.running w.ctx w.dead m (w.called m) state in
      let (why, kept, _) = process_message_lem c w.running w.ctx w.dead m state (w.called m) in
      elim (settle-done r done) [
        | inl was ↦ absurd (ground (arith, was, kept, new))
        | inr over ↦
            let reason : Ground c w.running w.ctx w.dead m state (w.called m) completed =
              subst (Ground c w.running w.ctx w.dead m state (w.called m)) over why in
            elim reason [ inl fine ↦ inl fine | inr (e, failed, _, taken) ↦ inr (e, failed, taken) ]
      ]

  finish-at :
      (h : List (Log E M)) (i : ℕ) (w : Work E M) (s : Client M) (old : Item M)
      → has i s.busy ≡ true
      → get_elem? s.items i ≡ some old
      → Inv c h s
      → Inv c (worked i w ∷ h) (finish c w i s)
  unfolding finish
  finish-at h i w s (msg_item state m) busy at inv =
      let r = process_message c w.running w.ctx w.dead m (w.called m) state in
      let kept = (process_message_lem c w.running w.ctx w.dead m state (w.called m)).1 in
      rw (busy, at, finish)
        (set-Inv h i w s _ (msg_item state m) (msg_item (settle r) m) refl refl refl at (λ v a. a)
          (λ done. settle_keeps r (kept ∙ done)) (message-Accounts w state m) inv)
  finish-at h i w s (batch_item state ms values) busy at inv =
      let after =
        process_batch c w.ctx w.ended w.dead_ctx w.batch_called w.batch_dead values state in
      rw (busy, at, finish)
        (set-Inv h i w s _ (batch_item state ms values) (batch_item after ms values) refl refl refl
          at (λ v a. a)
          (process_batch_keeps c w.ctx w.ended w.dead_ctx w.batch_called w.batch_dead values state)
          (process_batch-done c w.ctx w.ended w.dead_ctx w.batch_called w.batch_dead values state)
          inv)

  pub finish-Inv :
      (h : List (Log E M)) (i : ℕ) (w : Work E M) (s : Client M)
      → has i s.busy ≡ true
      → Inv c h s
      → Inv c (worked i w ∷ h) (finish c w i s)
  unfolding finish
  finish-Inv h i w s busy inv = elim (Option-cases (get_elem? s.items i)) [
    | inr (old, at) ↦ finish-at h i w s old busy at inv
    | inl nothing ↦
        rw (busy, nothing, finish)
          (record { line = inv.line; dealt = λ j x found done. inr (inv.dealt j x found done) })
  ]
