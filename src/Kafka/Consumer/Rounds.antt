-- ===== src/Kafka/Consumer/Rounds.antt =====
-- A message is not tried for ever.
use common_tools.Prelude.{
  ℕ, zero, suc, ◌+◌, ◌≤◌, ◌<◌, ◌≡◌, ◌⊎◌, inl, inr, refl, arith, Bool, subst, true, Option,
}
use common_tools.Prelude.Int.{ℤ, pos, negsuc, ltb_ℤ}
use common_tools.Prelude.Run.{Returns, returns}
use common_tools.Kafka.Retry.{at_least_one}
use common_tools.Kafka.Consumer.{
  Config, ConsumeState, fresh, Context, Called, Verdict, completed, later, left, process_message,
  mark_done, retry_rounds,
}
use common_tools.Kafka.Consumer.Account.{Ground, process_message_lem}

below_at_least_one : (n : ℕ) (max : ℤ) → ltb_ℤ (pos n) max ≡ true → n < at_least_one max
below_at_least_one n (pos zero) h = ground arith
below_at_least_one n (pos (suc m)) h = ground arith
below_at_least_one n (negsuc m) h = ground arith

Verdict-cases : (v : Verdict) → (v ≡ completed) ⊎ ((v ≡ later) ⊎ (v ≡ left))
Verdict-cases completed = inl refl
Verdict-cases later = inr (inl refl)
Verdict-cases left = inr (inr refl)

module _ {E M : Type 0} (c : Config) (running : ℕ → Bool) (ctx : ℕ → Context E)
    (dead : Option (M → E → ℕ → Option E)) (m : M) (called : ℕ → Called E) where
  -- The message is done with: marked, or given up.
  abbrev pub IsOver : ConsumeState × Verdict → Type 0
  IsOver r = ((r.1 ≡ completed) × (r.0.done ≡ true)) ⊎ (r.1 ≡ left)

  rounds-IsOver :
      (k i : ℕ) (s : ConsumeState)
      → s.retry_count < at_least_one c.retry_count
      → at_least_one c.retry_count ≤ s.retry_count + k
      → Returns IsOver (retry_rounds c running ctx dead m called k i s)
  unfolding retry_rounds
  rounds-IsOver zero i s h enough = absurd (omega arith)
  rounds-IsOver (suc k) i s h enough =
      let r = process_message c (running i) (ctx i) dead m (called i) s in
      let (why, _, counts) = process_message_lem c (running i) (ctx i) dead m s (called i) in
      elim (Verdict-cases r.1) [
        | inl done ↦ rw (done, retry_rounds) (returns (mark_done r.0, completed) (inl (refl, refl)))
        | inr (inr gone) ↦ rw (gone, retry_rounds) (returns (r.0, left) (inr refl))
        | inr (inl again) ↦
            let again_why : Ground c (running i) (ctx i) dead m s (called i) later =
              subst (Ground c (running i) (ctx i) dead m s (called i)) again why in
            let (e, failed, _, room) = again_why in
            let one_more = counts e failed in
            let b = below_at_least_one (s.retry_count + 1) c.retry_count room in
            rw (again, retry_rounds)
              (rounds-IsOver k (i + 1) r.0 (omega (arith, one_more, b))
                (omega (arith, one_more, enough)))
      ]

  -- Whatever a new message's calls return and whatever else happens meanwhile, it is done with after at most
  -- max(1, `ConsumerRetryCount`) calls of its handler: it is marked, or it is left alone.
  pub retry_rounds_end :
      Returns IsOver (retry_rounds c running ctx dead m called (at_least_one c.retry_count) 0 fresh)
  retry_rounds_end =
      rounds-IsOver (at_least_one c.retry_count) 0 fresh (positive c.retry_count) (omega arith)
    where
      positive : (max : ℤ) → 0 < at_least_one max
      positive (pos zero) = omega arith
      positive (pos (suc n)) = omega arith
      positive (negsuc n) = omega arith
