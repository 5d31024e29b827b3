-- ===== src/Pool/Once.antt =====
-- Each item is done once, and the pool does not stand still before.
use common_tools.Prelude.{
  ℕ, ◌+◌, ◌-◌, ◌*◌, ◌<◌, ◌≡◌, ◌⊎◌, refl, sym, subst, ap, Bool, true, false, some, List, [], ◌∷◌,
  ◌++◌, ◌==◌, ltb, length, count, arith, Bool-cases, inl, inr,
}
use common_tools.Prelude.Int.{ℤ, pos, negsuc}
use common_tools.Pool.{Pool, Move, send, receive, complete, pool_size, do_func, move, Moves}
use common_tools.Pool.Account.{Account, some_unique, Moves-Account}

pool_size_pos : (size : ℤ) (n : ℕ) → 0 < n → 0 < pool_size size n
unfolding pool_size
pool_size_pos (pos k) n h = ground arith
pool_size_pos (negsuc k) n h = h

module _ {A : Type 0} where
  -- An empty list counts nothing.
  count_short : (t : A → Bool) (xs : List A) → length xs ≡ 0 → count t xs ≡ 0
  count_short t [] e = refl
  count_short t (x ∷ xs) e = absurd (omega arith)

  -- If something is left to do, something can be done.
  progress :
      (workers : ℕ) (items : List A) (n : ℕ) (p : Pool A)
      → Account workers items n p
      → 0 < workers
      → 0 < p.waiting
      → (m : Move) × (q : Pool A) × (move m p ≡ some q)
  unfolding move
  progress workers items n p a some_workers more = go p.busy p.channel p.unsent refl refl refl
    where
      go :
          (bs cs us : List A)
          → p.busy ≡ bs
          → p.channel ≡ cs
          → p.unsent ≡ us
          → (m : Move) × (q : Pool A) × (move m p ≡ some q)
      go (b ∷ bs) cs us at_work c u = (
        complete 0,
        record p {
          idle = p.idle + 1;
          busy = bs;
          finished = b ∷ p.finished;
          waiting = p.waiting - 1;
        },
        rw (at_work, move) refl,
      )
      go [] (x ∷ xs) us all_free c u =
          let someone : (p.idle == 0) ≡ false =
            ground (arith, a.team, ap length all_free, some_workers) in
          (
            receive,
            record p { channel = xs; idle = p.idle - 1; busy = x ∷ p.busy },
            rw (c, someone, move) refl,
          )
      go [] [] (x ∷ xs) all_free c u =
          let room : ltb (length p.channel) 100 ≡ true = ground (arith, ap length c) in
          (send, record p { unsent = xs; channel = p.channel ++ x ∷ [] }, rw (u, room, move) refl)
      go [] [] [] all_free c u =
          absurd (omega (arith, a.waiting, more, ap length all_free, ap length c, ap length u))

  -- Every call of the function is done, each item once.
  pub record IsDone (items : List A) (p : Pool A) : Type 0 where
    pub released : p.waiting ≡ 0
    pub each_once : (t : A → Bool) → count t p.finished ≡ count t items

  Account-IsDone :
      (workers : ℕ) (items : List A) (n : ℕ) (p : Pool A)
      → Account workers items n p
      → p.waiting ≡ 0
      → IsDone items p
  Account-IsDone workers items n p a zero_left = record {
    released = zero_left;
    each_once = λ t. omega (
      arith,
      a.counts t,
      count_short t p.unsent (omega (arith, a.waiting, zero_left)),
      count_short t p.channel (omega (arith, a.waiting, zero_left)),
      count_short t p.busy (omega (arith, a.waiting, zero_left)),
    );
  }

  -- `DoFunc` with a function, for any items and any size of the pool, after any moves of its goroutines: either the
  -- WaitGroup is at 0, so that `DoFunc` returns, the function has been called for each item exactly once, and the
  -- goroutines have made three moves for each item; or they have made fewer, and some goroutine can move. So no
  -- run goes on for ever, and none stands still before the end.
  pub do_func_ends :
      (size : ℤ) (items : List A) (p q : Pool A) (n : ℕ)
      → do_func true size items ≡ some p
      → Moves p n q
      → (IsDone items q × (n ≡ 3 * length items))
        ⊎ ((n < 3 * length items) × ((m : Move) × (r : Pool A) × (move m q ≡ some r)))
  unfolding do_func
  do_func_ends size items p q n started moves =
      let workers = pool_size size (length items) in
      let fresh : Pool A = record {
        unsent = items;
        channel = [];
        idle = workers;
        busy = [];
        finished = [];
        waiting = length items;
      } in
      let same : fresh ≡ p = some_unique (some p) p fresh refl (sym started) in
      let a0 : Account workers items 0 fresh = record {
        counts = λ t. omega arith;
        waiting = omega arith;
        team = omega arith;
        left = omega arith;
      } in
      let a = Moves-Account workers items moves (subst (Account workers items 0) same a0) in
      elim (Bool-cases (q.waiting == 0)) [
        | inl over ↦
            let zero_left : q.waiting ≡ 0 = ground (arith, over) in
            inl (
              Account-IsDone workers items n q a zero_left,
              omega (arith, a.left, a.waiting, zero_left),
            )
        | inr on ↦
            let more : 0 < q.waiting = ground (arith, on) in
            let some_items : 0 < length items = omega (arith, a.left, a.waiting, more) in
            inr (
              omega (arith, a.left, a.waiting, more),
              progress workers items n q a (pool_size_pos size (length items) some_items) more,
            )
      ]
