-- ===== src/Kafka/Consumer/Account.antt =====
-- When the consumer takes a message or a batch for dealt with.
use native.Mathlib.Decide.{dec_lt}
use common_tools.Prelude.{
  ℕ, ◌+◌, ◌-◌, ◌≤◌, ◌<◌, ◌≡◌, ◌⊎◌, ◌↔◌, inl, inr, refl, sym, ◌∙◌, arith, Option-cases, Bool-cases,
  Bool, true, false, Option, none, some, List, [], ◌∷◌,
}
use common_tools.Prelude.Int.{ℤ, pos, ltb_ℤ}
use common_tools.Kafka.Retry.{World, at_least_one, run, retry_delay}
use common_tools.Kafka.Retry.Calls.{run-Ends}
use common_tools.Kafka.Consumer.{
  Config, ConsumeState, Context, Called, returned, panicked, Verdict, completed, later, left,
  dead_letter_world, handle_dead_letter, process_message, batch_world, note_failures, process_batch,
}

module _ {E : Type 0} where
  -- One of the attempts 1, ..., max(1, `max`) succeeds.
  abbrev pub Succeeds : (ℕ → Option E) → ℤ → Type 0
  Succeeds f max = (n : ℕ) × (0 < n) × (n ≤ at_least_one max) × (f n ≡ none)

  -- The context does not end.
  pub record IsAlive (ctx : Context E) : Type 0 where
    pub before : (n : ℕ) → ctx.ctx_err n ≡ none
    pub between : (n : ℕ) → ctx.cancelled n ≡ none

  pub run-Succeeds : (w : World E) (max : ℤ) → (run w max).0 ≡ none → Succeeds w.fn max
  run-Succeeds w max h =
      let e = run-Ends w max in
      elim e.why [
        | inl (_, late, fine) ↦ (e.stop - 1, omega arith, omega (arith, e.within), fine)
        | inr (inl (_, _, bad)) ↦ absurd (bad h)
        | inr (inr (bad, _)) ↦ absurd (bad h)
      ]

  pub run_complete :
      (w : World E) (max : ℤ)
      → ((n : ℕ) → w.ctx_err n ≡ none)
      → ((n : ℕ) → w.cancelled n ≡ none)
      → Succeeds w.fn max
      → (run w max).0 ≡ none
  run_complete w max before between (n, above, upto, fine) =
      let e = run-Ends w max in
      elim e.why [
        | inl (fine1, _, _) ↦ fine1
        | inr (inl (all, last, bad)) ↦
            let same : e.stop - 1 ≡ n → (run w max).0 ≡ none = λ p. cc in
            elim (dec_lt (n + 1) e.stop) [
              | yes early ↦ absurd (e.failed n above early fine)
              | no p ↦ same (omega (arith, all))
            ]
        | inr (inr (bad, inl ended)) ↦ absurd (bad (sym ended ∙ before e.stop))
        | inr (inr (bad, inr (_, ended))) ↦ absurd (bad (sym ended ∙ between (e.stop - 1)))
      ]

  module _ {X : Type 0} (c : Config) (ctx : Context E) (dead : Option (X → E → ℕ → Option E))
      (x : X) (cause : E) where
    -- There is no handler of dead letters, or it takes this one.
    abbrev pub TakesDeadLetter : Type 0
    TakesDeadLetter =
        (dead ≡ none)
        ⊎ ((f : X → E → ℕ → Option E) × (dead ≡ some f)
            × Succeeds (f x cause) c.dead_letter_retry_count)

    pub handle_dead_letter-true : handle_dead_letter c ctx dead x cause ≡ true → TakesDeadLetter
    unfolding handle_dead_letter
    handle_dead_letter-true h = elim (Option-cases dead) [
      | inl absent ↦ inl absent
      | inr (f, present) ↦
          let w = dead_letter_world c ctx (f x cause) in
          elim (Option-cases ((run w c.dead_letter_retry_count).0)) [
            | inl fine ↦ inr (f, present, run-Succeeds w c.dead_letter_retry_count fine)
            | inr (e, bad) ↦ absurd (ground arith)
          ]
    ]

    -- As long as the context does not end, `handleDeadLetter` returns true exactly when there is no handler of
    -- dead letters, or one of its first max(1, `DeadLetterRetryCount`) attempts succeeds.
    pub handle_dead_letter_iff :
        IsAlive ctx → (handle_dead_letter c ctx dead x cause ≡ true) ↔ TakesDeadLetter
    unfolding handle_dead_letter
    handle_dead_letter_iff alive = (
      handle_dead_letter-true,
      λ t. elim t [
        | inl absent ↦ rw absent refl
        | inr (f, present, s) ↦
            let w = dead_letter_world c ctx (f x cause) in
            rw
              (
                present,
                handle_dead_letter,
                run_complete w c.dead_letter_retry_count alive.before alive.between s,
              )
              refl
      ],
    )

module _ {E M : Type 0} (c : Config) (running : Bool) (ctx : Context E)
    (dead : Option (M → E → ℕ → Option E)) (m : M) (s : ConsumeState) where
  -- The handler has failed as often as it may.
  abbrev pub UsedUp : Type 0
  UsedUp = ltb_ℤ (pos (s.retry_count + 1)) c.retry_count ≡ false

  -- Why a message is dealt with, tried again, or left alone.
  abbrev pub Ground : Called E → Verdict → Type 0
  Ground called completed =
      (called ≡ returned none)
      ⊎ ((e : E) × (called ≡ returned (some e)) × UsedUp × TakesDeadLetter c ctx dead m e)
  Ground called later =
      (e : E) × (called ≡ returned (some e))
      × (running ≡ true)
      × (ltb_ℤ (pos (s.retry_count + 1)) c.retry_count ≡ true)
  Ground called left =
      (called ≡ panicked)
      ⊎ ((e : E) × (called ≡ returned (some e))
          × ((running ≡ false) ⊎ (UsedUp × (handle_dead_letter c ctx dead m e ≡ false))))

  -- `processMessage` returns true only for a message whose handler returned no error, or whose handler has
  -- failed `ConsumerRetryCount` times and that the dead letters' handler takes, or nobody
  -- asks for. It starts a retry only after an error, while the client runs and retries are left; and it
  -- leaves the message alone after a panic, after an error on a stopped client,
  -- or when the dead letters' handler fails. It never marks the message itself, and
  -- counts the error of every call that returns one.
  pub process_message_lem :
      (called : Called E)
      → let r = process_message c running ctx dead m called s in
        Ground called r.1
        × (r.0.done ≡ s.done)
        × ((e : E) → called ≡ returned (some e) → r.0.retry_count ≡ s.retry_count + 1)
  unfolding process_message
  process_message_lem panicked = (inl refl, refl, λ e h. absurd (ground arith))
  process_message_lem (returned none) = (inl refl, refl, λ e h. absurd (ground arith))
  process_message_lem (returned (some e)) =
      elim (Bool-cases (ltb_ℤ (pos (s.retry_count + 1)) c.retry_count)) [
        | inl more ↦ elim (Bool-cases running) [
          | inl on ↦ rw (more, on) ((e, refl, refl, more), refl, λ d h. refl)
          | inr off ↦ rw (more, off) (inr (e, refl, inl refl), refl, λ d h. refl)
        ]
        | inr over ↦ elim (Bool-cases (handle_dead_letter c ctx dead m e)) [
          | inl taken ↦
              rw (over, taken)
                (
                  inr (e, refl, over, handle_dead_letter-true c ctx dead m e taken),
                  refl,
                  λ d h. refl,
                )
          | inr refused ↦ rw (over, refused) (inr (e, refl, inr (over, refused)), refl, λ d h. refl)
        ]
      ]

module _ {E : Type 0} where
  note_failures-done :
      (f : ℕ → Option E) (ns : List ℕ) (s : ConsumeState) → (note_failures f ns s).done ≡ s.done
  unfolding note_failures
  note_failures-done f [] s = refl
  note_failures-done f (n ∷ ns) s = elim (Option-cases (f n)) [
    | inl fine ↦ rw (fine, note_failures) (note_failures-done f ns s)
    | inr (e, bad) ↦
        rw (bad, note_failures)
          (note_failures-done f ns
            (record s { retry_count = n; retry_delay = retry_delay (pos n) }))
  ]

module _ {E M : Type 0} where
  -- Why a batch is dealt with: an attempt of its handler succeeds; or none does, the context is
  -- alive, and the dead letters' handler takes the batch or nobody asks for it.
  abbrev pub BatchGround :
      Config
      → Context E
      → Option E
      → (List M → ℕ → Option E)
      → Option (List M → E → ℕ → Option E)
      → List M
      → Type 0
  BatchGround c dead_ctx ended handler dead values =
      Succeeds (handler values) c.retry_count
      ⊎ ((ended ≡ none) × (e : E) × TakesDeadLetter c dead_ctx dead values e)

  -- `processBatch` marks a batch that was not marked only if one of the first max(1, `ConsumerRetryCount`)
  -- attempts of its handler succeeds, or, on a context that is still alive after these attempts, the
  -- dead letters' handler takes the batch or is absent.
  pub process_batch-done :
      (c : Config) (ctx : Context E) (ended : Option E) (dead_ctx : Context E)
      (handler : List M → ℕ → Option E) (dead : Option (List M → E → ℕ → Option E))
      (values : List M) (s : ConsumeState)
      → s.done ≡ false
      → (process_batch c ctx ended dead_ctx handler dead values s).done ≡ true
      → BatchGround c dead_ctx ended handler dead values
  unfolding process_batch
  process_batch-done c ctx ended dead_ctx handler dead values s new h =
      let w = batch_world ctx (handler values) in
      let kept = note_failures-done (handler values) (run w c.retry_count).1 s in
      elim (Option-cases (run w c.retry_count).0) [
        | inl fine ↦ inl (run-Succeeds w c.retry_count fine)
        | inr (e, bad) ↦ elim (Option-cases ended) [
          | inr (x, over) ↦ absurd (ground (arith, kept))
          | inl alive ↦ elim (Bool-cases (handle_dead_letter c dead_ctx dead values e)) [
            | inl taken ↦ inr (alive, e, handle_dead_letter-true c dead_ctx dead values e taken)
            | inr refused ↦ absurd (ground (arith, kept))
          ]
        ]
      ]

  -- A batch that is marked stays marked.
  pub process_batch_keeps :
      (c : Config) (ctx : Context E) (ended : Option E) (dead_ctx : Context E)
      (handler : List M → ℕ → Option E) (dead : Option (List M → E → ℕ → Option E))
      (values : List M) (s : ConsumeState)
      → s.done ≡ true
      → (process_batch c ctx ended dead_ctx handler dead values s).done ≡ true
  unfolding process_batch
  process_batch_keeps c ctx ended dead_ctx handler dead values s h =
      let w = batch_world ctx (handler values) in
      let kept = note_failures-done (handler values) (run w c.retry_count).1 s in
      elim (Option-cases (run w c.retry_count).0) [
        | inl fine ↦ rw (fine, process_batch) refl
        | inr (e, bad) ↦ elim (Option-cases ended) [
          | inr (x, over) ↦ rw (bad, over, process_batch) (kept ∙ h)
          | inl alive ↦ elim (Bool-cases (handle_dead_letter c dead_ctx dead values e)) [
            | inl taken ↦ rw (bad, alive, taken, process_batch) refl
            | inr refused ↦ rw (bad, alive, refused, process_batch) (kept ∙ h)
          ]
        ]
      ]
