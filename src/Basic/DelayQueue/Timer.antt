-- ===== src/Basic/DelayQueue/Timer.antt =====
-- Items are taken in the order of their times, none before it is due, and the timer fires in time.
use common_tools.Prelude.{
  ℕ, ◌+◌, ◌^◌, ◌≡◌, ◌≢◌, ◌≤◌, ◌<◌, refl, sym, subst, Bool, true, false, not, ◌&&◌, List, [], ◌∷◌,
  get_or, arith, ◌==◌, ltb, leb, if◌then◌else◌, one, count, count-none, count-zero, count_mono,
  count-get_or, ◌∙◌, inl, inr, Bool-cases,
}
use common_tools.Prelude.Run.{Returns, returns, Returns-bind}
use common_tools.Basic.PriorityQueue.{ObjectPriorityQueue, str_equal, below}
use common_tools.Basic.PriorityQueue.Offer.{IsQueue, Offered, offer_adds}
use common_tools.Basic.PriorityQueue.Poll.{peek_first, none_before_first}
use common_tools.Basic.DelayQueue.{DelayItem, DelayQueue, armed, spent, decimal, item_string, add}
use common_tools.Basic.DelayQueue.Decimal.{str_lt-decimal}

str_equal_refl : (a : List ℕ) → str_equal a a ≡ true
unfolding str_equal
str_equal_refl [] = refl
str_equal_refl (x ∷ xs) = ground (arith, str_equal_refl xs)

differs-times : (a b : ℕ) → str_equal (decimal b) (decimal a) ≡ false → a ≢ b
differs-times a b differs e =
    let same : str_equal (decimal b) (decimal a) ≡ true =
      subst (λ k. str_equal (decimal b) (decimal k) ≡ true) (sym e) (str_equal_refl (decimal b)) in
    cc

-- The item is due before `t`.
abbrev pub before : {V : Type 0} → ℕ → DelayItem V → Bool
before t x = ltb x.priority t

-- The item is due before `t` by more than `slack`.
abbrev pub late : {V : Type 0} → ℕ → ℕ → DelayItem V → Bool
late slack t x = ltb (x.priority + slack) t

-- A time of 19 digits.
abbrev pub dated : ℕ → Bool
dated n = leb (10 ^ 18) n && ltb n (10 ^ 19)

abbrev pub undated : {V : Type 0} → DelayItem V → Bool
undated x = not (dated x.priority)

module _ {V : Type 0} (slack : ℕ) (z : DelayItem V) where
  -- A queue in order whose times have 19 digits, and whose timer, if it is set, fires at most `slack` after its first item
  -- is due.
  pub record IsArmed (dq : DelayQueue V) : Type 0 where
    pub queue : IsQueue item_string z dq.heap
    pub earliest : dq.heap.max_first ≡ false
    pub all_dated : count undated dq.heap.arr ≡ 0
    pub in_time : (t : ℕ) → dq.timer ≡ armed t → count (late slack t) dq.heap.arr ≡ 0

  below-before :
      (x y : DelayItem V)
      → undated x ≡ false
      → undated y ≡ false
      → below item_string false x y ≡ before x.priority y
  unfolding below item_string
  below-before x y hx hy =
      str_lt-decimal y.priority x.priority (ground (arith, hy)) (ground (arith, hy))
        (ground (arith, hx)) (ground (arith, hx))

  -- None is due before the first.
  pub first_least :
      (q : ObjectPriorityQueue (DelayItem V))
      → IsQueue item_string z q
      → q.max_first ≡ false
      → count undated q.arr ≡ 0
      → 0 < q.size
      → count (before (get_or q.arr 0 z).priority) q.arr ≡ 0
  first_least q w m d pos =
      let first = get_or q.arr 0 z in
      let kept : count (below item_string false first) q.arr ≡ 0 =
        subst (λ b. count (below item_string b first) q.arr ≡ 0) m
          (none_before_first item_string z q w) in
      let f = count-zero undated q.arr z 0 d (omega (arith, w.counted)) in
      count-none (before first.priority) q.arr z (λ i hi.
        let other = count-zero undated q.arr z i d hi in
        let kept_i = count-zero (below item_string false first) q.arr z i kept hi in
        subst (λ b. b ≡ false) (below-before first (get_or q.arr i z) f other) kept_i)

  -- A first item with another time than the new one is due no earlier than the timer fires; so is
  -- the new one.
  old_first :
      (item : DelayItem V) (dq : DelayQueue V) (q : ObjectPriorityQueue (DelayItem V)) (t : ℕ)
      → count (late slack t) dq.heap.arr ≡ 0
      → Offered item_string z item dq.heap q
      → count (before (get_or q.arr 0 z).priority) q.arr ≡ 0
      → item.priority ≢ (get_or q.arr 0 z).priority
      → t ≤ item.priority + slack
  old_first item dq q t a o least other =
      let first = get_or q.arr 0 z in
      let as_first : DelayItem V → Bool = λ x. x.priority == first.priority in
      let at_least : first.priority ≤ item.priority =
        ground (arith, least, o.elements (before first.priority)) in
      let in_new : one (as_first first) ≤ count as_first q.arr =
        count-get_or as_first q.arr z 0 (omega (arith, o.size, o.queue.counted)) in
      let in_old : 0 < count as_first dq.heap.arr =
        ground (arith, in_new, o.elements as_first, other) in
      elim (Bool-cases (ltb (first.priority + slack) t)) [
        | inl too_late ↦
            let more =
              count_mono as_first (late slack t) dq.heap.arr (λ x e. ground (arith, e, too_late)) in
            absurd (omega (arith, more, in_old, a))
        | inr fine ↦ ground (arith, fine, at_least)
      ]

  -- What `Add` does: one item more, with the timer, if it is set, in time for all of them.
  pub record Added (item : DelayItem V) (dq r : DelayQueue V) : Type 0 where
    pub is_armed : IsArmed r
    pub elements :
        (p : DelayItem V → Bool) → count p r.heap.arr ≡ count p dq.heap.arr + one (p item)
    pub tick : r.timer ≡ spent → dq.timer ≡ spent

  Offered-Added :
      (lag : ℕ) (item : DelayItem V) (dq : DelayQueue V) (q : ObjectPriorityQueue (DelayItem V))
      → lag ≤ slack
      → dated item.priority ≡ true
      → IsArmed dq
      → Offered item_string z item dq.heap q
      → let first = get_or q.arr 0 z in
        Added item dq (record {
          heap = q;
          timer =
              if str_equal (item_string first) (item_string item)
              then armed (first.priority + lag)
              else dq.timer;
        })
  unfolding item_string
  Offered-Added lag item dq q soon d a o =
      let first = get_or q.arr 0 z in
      let all : count undated q.arr ≡ 0 = ground (arith, d, a.all_dated, o.elements undated) in
      let least = first_least q o.queue (o.order ∙ a.earliest) all (omega (arith, o.size)) in
      record {
        is_armed = record {
          queue = o.queue;
          earliest = o.order ∙ a.earliest;
          all_dated = all;
          in_time = λ t set.
              elim (Bool-cases (str_equal (decimal first.priority) (decimal item.priority))) [
                | inl same ↦
                    let at : t ≡ first.priority + lag = ground (arith, set, same) in
                    let fewer =
                      count_mono (late {V = V} slack t) (before first.priority) q.arr
                        (λ x e. ground (arith, e, at, soon)) in
                    omega (arith, fewer, least)
                | inr differs ↦
                    let other : item.priority ≢ first.priority =
                      λ e. differs-times item.priority first.priority differs e in
                    let old = a.in_time t (ground (arith, set, differs)) in
                    let early = old_first item dq q t old o least other in
                    ground (arith, o.elements (late slack t), old, early)
              ];
        };
        elements = o.elements;
        tick = λ e. ground (arith, e);
      }

  -- A new item of 19 digits goes into the queue, which stays in order, and the timer, if it is set, fires in
  -- time for every item.
  pub add_arms :
      (grow : ℕ → ℕ) (lag : ℕ) (item : DelayItem V) (dq : DelayQueue V)
      → ((c : ℕ) → c < grow c)
      → lag ≤ slack
      → dated item.priority ≡ true
      → IsArmed dq
      → Returns (Added item dq) (add grow lag item dq)
  unfolding add
  add_arms grow lag item dq more soon d a =
      Returns-bind _ (offer_adds item_string z grow item dq.heap more a.queue) (λ q o.
        rw (peek_first item_string z q o.queue (omega (arith, o.size)))
          (returns _ (Offered-Added lag item dq q soon d a o)))
