-- ===== src/Kafka/Retry/Calls.antt =====
-- Which attempts a run makes, and how it ends.
use common_tools.Prelude.{
  ℕ, zero, suc, ◌+◌, ◌-◌, ◌≤◌, ◌<◌, ◌≡◌, ◌≢◌, ◌⊎◌, inl, inr, refl, ap, sym, arith, Option-cases,
  false, Option, none, some, List, [], ◌∷◌, ◌==◌, subst,
}
use native.Mathlib.Decide.{ℕ_discrete}
use common_tools.Prelude.Int.{ℤ, pos, negsuc}
use common_tools.Kafka.Retry.{World, wait, run_loop, at_least_one, run}

-- The `k` attempts from `n` on.
abbrev pub upto : ℕ → ℕ → List ℕ
upto n zero = []
upto n (suc k) = n ∷ upto (n + 1) k

module _ {E : Type 0} (w : World E) where
  -- Why it stopped, `stop` being the first attempt not made: the last one succeeded; or all attempts
  -- were made and the last one's error is returned; or the context's error is, which came before
  -- the attempt `stop`, or in the wait before it.
  abbrev pub Why : ℕ → ℕ → Option E → ℕ → Type 0
  Why first left result stop =
      ((result ≡ none) × (first < stop) × (w.fn (stop - 1) ≡ none))
      ⊎ (((stop ≡ first + left) × (w.fn (stop - 1) ≡ result) × (result ≢ none))
          ⊎ ((result ≢ none)
              × ((w.ctx_err stop ≡ result) ⊎ ((first < stop) × (w.cancelled (stop - 1) ≡ result)))))

  -- The run ended before attempt `stop`, having made those from `first` on, which all failed but
  -- perhaps the last; and it ended for one of three reasons.
  pub record Ends (first left : ℕ) (r : Option E × List ℕ) : Type 0 where
    pub stop : ℕ
    pub from : first ≤ stop
    pub within : stop ≤ first + left
    pub made : r.1 ≡ upto first (stop - first)
    pub failed : (n : ℕ) → first ≤ n → n + 1 < stop → w.fn n ≢ none
    pub why : Why first left r.0 stop

  Why-cons :
      (first left stop : ℕ) (result : Option E)
      → Why (first + 1) left result stop
      → Why first (suc left) result stop
  Why-cons first left stop result y = ground arith

  upto-cons :
      (first stop : ℕ)
      → first < stop
      → upto first (stop - first) ≡ first ∷ upto (first + 1) (stop - (first + 1))
  upto-cons first stop h =
      let e : stop - first ≡ suc (stop - (first + 1)) = omega arith in ap (upto first) e

  -- One failed attempt before a run that ends.
  cons-Ends :
      (first left : ℕ) (r : Option E × List ℕ)
      → w.fn first ≢ none
      → Ends (first + 1) left r
      → Ends first (suc left) (r.0, first ∷ r.1)
  cons-Ends first left r bad e = record {
    stop = e.stop;
    from = omega (arith, e.from);
    within = omega (arith, e.within);
    made = ground (arith, e.made, e.from, upto-cons first e.stop);
    failed = λ n lo hi. elim (ℕ_discrete n first) [
      | yes p ↦ subst (λ k. w.fn k ≢ none) (sym p) bad
      | no p ↦ e.failed n (omega arith) hi
    ];
    why = Why-cons first left e.stop r.0 e.why;
  }

  -- No attempt made: the context ended first.
  ended-Ends : (left first : ℕ) (e : E) → w.ctx_err first ≡ some e → Ends first left (some e, [])
  ended-Ends left first e h =
      let none_made : first - first ≡ 0 = omega arith in
      record {
        stop = first;
        from = omega arith;
        within = omega arith;
        made = ap (upto first) (sym none_made);
        failed = λ n lo hi. absurd (omega arith);
        why = inr (inr ((λ x. cc), inl h));
      }

  -- One attempt, and the run ends.
  last-Ends :
      (left first : ℕ) (result : Option E)
      → ((result ≡ none) × (w.fn first ≡ none))
        ⊎ (((left ≡ 0) × (w.fn first ≡ result) × (result ≢ none))
            ⊎ ((result ≢ none) × (w.cancelled first ≡ result)))
      → Ends first (suc left) (result, first ∷ [])
  last-Ends left first result h =
      let back : first + 1 - 1 ≡ first = omega arith in
      let one : first + 1 - first ≡ suc zero = omega arith in
      record {
        stop = first + 1;
        from = omega arith;
        within = omega arith;
        made = ap (upto first) (sym one);
        failed = λ n lo hi. absurd (omega arith);
        why = rw back (ground arith);
      }

  -- An attempt succeeds.
  fine-Ends :
      (left first : ℕ) (last : Option E)
      → w.ctx_err first ≡ none
      → w.fn first ≡ none
      → Ends first (suc left) (run_loop w (suc left) first last)
  unfolding run_loop
  fine-Ends left first last live fine =
      rw (live, fine, run_loop) (last-Ends left first none (inl (refl, fine)))

  -- The last attempt fails.
  exhausted-Ends :
      (first : ℕ) (last : Option E) (e : E)
      → w.ctx_err first ≡ none
      → w.fn first ≡ some e
      → Ends first 1 (run_loop w 1 first last)
  unfolding run_loop
  exhausted-Ends first last e live bad =
      rw (live, bad, run_loop) (last-Ends 0 first (some e) (inr (inl (refl, bad, (λ x. cc)))))

  -- The context ends in the wait after a failed attempt.
  stopped-Ends :
      (left first : ℕ) (last : Option E) (e c : E)
      → w.ctx_err first ≡ none
      → w.fn first ≡ some e
      → wait w first ≡ some c
      → Ends first (suc (suc left)) (run_loop w (suc (suc left)) first last)
  unfolding run_loop wait
  stopped-Ends left first last e c live bad stopped =
      let cut : w.cancelled first ≡ some c = ground arith in
      let more_left : (suc left == 0) ≡ false = ground arith in
      rw (live, bad, more_left, stopped, run_loop)
        (last-Ends (suc left) first (some c) (inr (inr ((λ x. cc), cut))))

  -- An attempt fails, and the run goes on.
  run_loop-next :
      (left first : ℕ) (last : Option E) (e : E)
      → w.ctx_err first ≡ none
      → w.fn first ≡ some e
      → wait w first ≡ none
      → let rest = run_loop w (suc left) (first + 1) (w.fn first) in
        run_loop w (suc (suc left)) first last ≡ (rest.0, first ∷ rest.1)
  unfolding run_loop
  run_loop-next left first last e live bad on =
      let more_left : (suc left == 0) ≡ false = ground arith in
      rw (live, bad, more_left, on, run_loop) refl

  run_loop-Ends :
      (left first : ℕ) (last : Option E) → Ends first (suc left) (run_loop w (suc left) first last)
  unfolding run_loop
  run_loop-Ends zero first last = elim (Option-cases (w.ctx_err first)) [
    | inr (e, ended) ↦ rw (ended, run_loop) (ended-Ends 1 first e ended)
    | inl live ↦ elim (Option-cases (w.fn first)) [
      | inl fine ↦ fine-Ends 0 first last live fine
      | inr (e, bad) ↦ exhausted-Ends first last e live bad
    ]
  ]
  run_loop-Ends (suc k) first last = elim (Option-cases (w.ctx_err first)) [
    | inr (e, ended) ↦ rw (ended, run_loop) (ended-Ends (suc (suc k)) first e ended)
    | inl live ↦ elim (Option-cases (w.fn first)) [
      | inl fine ↦ fine-Ends (suc k) first last live fine
      | inr (e, bad) ↦ elim (Option-cases (wait w first)) [
        | inr (c, stopped) ↦ stopped-Ends k first last e c live bad stopped
        | inl on ↦
            let failed : w.fn first ≢ none = (λ x. cc) in
            subst (Ends first (suc (suc k))) (sym (run_loop-next k first last e live bad on)) (
              cons-Ends first (suc k) (run_loop w (suc k) (first + 1) (w.fn first)) failed
                (run_loop-Ends k (first + 1) (w.fn first)))
      ]
    ]
  ]

  at_least_one-suc : (max : ℤ) → at_least_one max ≡ suc (at_least_one max - 1)
  at_least_one-suc (pos zero) = refl
  at_least_one-suc (pos (suc n)) = omega arith
  at_least_one-suc (negsuc n) = refl

  -- A run with `MaxAttempts` = `max` calls `fn` with 1, 2, ... in this order, at most max(1, `max`)
  -- times, and stops before an attempt `stop`. All attempts but perhaps the last failed. It stops because the
  -- last one succeeded, and returns no error; or because all attempts were made, and returns
  -- the last one's error; or because the context ended, before the attempt `stop` or in the wait before
  -- it, and returns the context's error.
  pub run-Ends : (max : ℤ) → Ends 1 (at_least_one max) (run w max)
  unfolding run
  run-Ends max =
      subst (λ k. Ends 1 k (run_loop w k 1 none)) (sym (at_least_one-suc max))
        (run_loop-Ends (at_least_one max - 1) 1 none)
