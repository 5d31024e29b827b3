-- ===== src/Pool/Account.antt =====
-- The items of a pool are somewhere, each once, whatever its goroutines do.
use common_tools.Prelude.{
  ℕ, zero, suc, ◌+◌, ◌-◌, ◌*◌, ◌≡◌, ◌≢◌, refl, sym, subst, ap, ◌∙◌, Bool, Option, none, some, List,
  [], ◌∷◌, ◌++◌, ◌==◌, ltb, length, length-append, count, count-append, one, arith, Bool-cases,
  Option-cases, inl, inr,
}
use common_tools.Pool.{
  Pool, Move, send, receive, complete, take_out, move, Moves, at_first, and_move,
}

module _ {A : Type 0} where
  take_out-count :
      (t : A → Bool) (i : ℕ) (xs : List A) (x : A) (rest : List A)
      → take_out i xs ≡ some (x, rest)
      → count t xs ≡ one (t x) + count t rest
  take_out-count t i [] x rest e = absurd (ground (arith, e))
  take_out-count t zero (y ∷ ys) x rest e = ground (arith, e)
  take_out-count t (suc i) (y ∷ ys) x rest e = elim (Option-cases (take_out i ys)) [
    | inl miss ↦ absurd (ground (arith, e, miss))
    | inr ((z, zs), hit) ↦ ground (arith, e, hit, take_out-count t i ys z zs hit)
  ]

  take_out-length :
      (i : ℕ) (xs : List A) (x : A) (rest : List A)
      → take_out i xs ≡ some (x, rest)
      → length xs ≡ suc (length rest)
  take_out-length i [] x rest e = absurd (ground (arith, e))
  take_out-length zero (y ∷ ys) x rest e = ground (arith, e)
  take_out-length (suc i) (y ∷ ys) x rest e = elim (Option-cases (take_out i ys)) [
    | inl miss ↦ absurd (ground (arith, e, miss))
    | inr ((z, zs), hit) ↦ ground (arith, e, hit, take_out-length i ys z zs hit)
  ]

  -- After `n` moves from the items: the items are somewhere, each once, and so many moves are left.
  pub record Account (workers : ℕ) (items : List A) (n : ℕ) (p : Pool A) : Type 0 where
    pub counts :
        (t : A → Bool)
        → count t p.unsent + count t p.channel + count t p.busy + count t p.finished ≡ count t items
    pub waiting : p.waiting ≡ length p.unsent + length p.channel + length p.busy
    pub team : p.idle + length p.busy ≡ workers
    pub left : n + 3 * length p.unsent + 2 * length p.channel + length p.busy ≡ 3 * length items

  module _ (workers : ℕ) (items : List A) (n : ℕ) (p : Pool A) (a : Account workers items n p) where
    send-Account :
        (x : A) (xs : List A)
        → p.unsent ≡ x ∷ xs
        → Account workers items (n + 1) (record p { unsent = xs; channel = p.channel ++ x ∷ [] })
    send-Account x xs e = record {
      counts = λ t.
          let before : count t p.unsent ≡ one (t x) + count t xs = ap (count t) e in
          omega (arith, a.counts t, before, count-append t p.channel (x ∷ []));
      waiting =
          let before : length p.unsent ≡ suc (length xs) = ap length e in
          omega (arith, a.waiting, before, length-append p.channel (x ∷ []));
      team = a.team;
      left =
          let before : length p.unsent ≡ suc (length xs) = ap length e in
          omega (arith, a.left, before, length-append p.channel (x ∷ []));
    }

    receive-Account :
        (x : A) (xs : List A)
        → p.channel ≡ x ∷ xs
        → p.idle ≢ 0
        → Account workers items
            (n + 1)
            (record p { channel = xs; idle = p.idle - 1; busy = x ∷ p.busy })
    receive-Account x xs e free = record {
      counts = λ t.
          let before : count t p.channel ≡ one (t x) + count t xs = ap (count t) e in
          omega (arith, a.counts t, before);
      waiting =
          let before : length p.channel ≡ suc (length xs) = ap length e in
          omega (arith, a.waiting, before);
      team = omega (arith, a.team, free);
      left =
          let before : length p.channel ≡ suc (length xs) = ap length e in
          omega (arith, a.left, before);
    }

    complete-Account :
        (i : ℕ) (x : A) (rest : List A)
        → take_out i p.busy ≡ some (x, rest)
        → Account workers items (n + 1) (record p {
          idle = p.idle + 1;
          busy = rest;
          finished = x ∷ p.finished;
          waiting = p.waiting - 1;
        })
    complete-Account i x rest e = record {
      counts = λ t. omega (arith, a.counts t, take_out-count t i p.busy x rest e);
      waiting = omega (arith, a.waiting, take_out-length i p.busy x rest e);
      team = omega (arith, a.team, take_out-length i p.busy x rest e);
      left = omega (arith, a.left, take_out-length i p.busy x rest e);
    }

  -- An option is one thing only.
  pub some_unique : (o : Option (Pool A)) (q r : Pool A) → o ≡ some q → o ≡ some r → r ≡ q
  some_unique o q r e f = ap (λ u. elim u [ none ↦ r | some z ↦ z ]) (sym f ∙ e)

  no-move : (o : Option (Pool A)) (q : Pool A) → o ≡ some q → o ≡ none → ⊥
  no-move o q e f = ground (arith, e, f)

  move-Account :
      (workers : ℕ) (items : List A) (n : ℕ) (m : Move) (p q : Pool A)
      → move m p ≡ some q
      → Account workers items n p
      → Account workers items (n + 1) q
  unfolding move
  move-Account workers items n send p q e a = go p.unsent refl
    where
      go : (us : List A) → p.unsent ≡ us → Account workers items (n + 1) q
      go [] u = absurd (no-move (move send p) q e (rw (u, move) refl))
      go (x ∷ xs) u = elim (Bool-cases (ltb (length p.channel) 100)) [
        | inl room ↦
            subst (Account workers items (n + 1))
              (some_unique (move send p) q _ e (rw (u, room, move) refl))
              (send-Account workers items n p a x xs u)
        | inr full ↦ absurd (no-move (move send p) q e (rw (u, full, move) refl))
      ]
  move-Account workers items n receive p q e a = go p.channel refl
    where
      go : (us : List A) → p.channel ≡ us → Account workers items (n + 1) q
      go [] u = absurd (no-move (move receive p) q e (rw (u, move) refl))
      go (x ∷ xs) u = elim (Bool-cases (p.idle == 0)) [
        | inl none_free ↦ absurd (no-move (move receive p) q e (rw (u, none_free, move) refl))
        | inr free ↦
            subst (Account workers items (n + 1))
              (some_unique (move receive p) q _ e (rw (u, free, move) refl))
              (receive-Account workers items n p a x xs u (ground (arith, free)))
      ]
  move-Account workers items n (complete i) p q e a = elim (Option-cases (take_out i p.busy)) [
    | inl miss ↦ absurd (no-move (move (complete i) p) q e (rw (miss, move) refl))
    | inr ((x, rest), hit) ↦
        subst (Account workers items (n + 1))
          (some_unique (move (complete i) p) q _ e (rw (hit, move) refl))
          (complete-Account workers items n p a i x rest hit)
  ]

  pub Moves-Account :
      (workers : ℕ) (items : List A) {p : Pool A} {n : ℕ} {q : Pool A}
      → Moves p n q
      → Account workers items 0 p
      → Account workers items n q
  Moves-Account workers items at_first a = a
  Moves-Account workers items (and_move {n} {q} {r} past m e) a =
      move-Account workers items n m q r e (Moves-Account workers items past a)
