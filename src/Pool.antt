-- ===== src/Pool.antt =====
-- pkg/pool/pool.go: a function is called for each item by a fixed number of workers. The three functions
-- (for strings, interface values and any type) are the same but for the type. The channel holds 100 items; the order in
-- which the goroutines move is a list of moves. A panic of the function ends the program and is left out.
pub mod Account
pub mod Once
mod Tests
use common_tools.Prelude.{
  ℕ, zero, suc, ◌+◌, ◌-◌, Bool, true, false, ◌||◌, Option, none, some, List, [], ◌∷◌, ◌++◌, ◌==◌,
  ltb, if◌then◌else◌, length, ◌≡◌,
}
use common_tools.Prelude.Int.{ℤ, pos, negsuc}

-- What the producer has not sent, the channel, the workers that wait for an item, the items that are
-- worked on, those that are done, and the counter of the WaitGroup.
pub record Pool (A : Type 0) : Type 0 where
  pub unsent : List A
  pub channel : List A
  pub idle : ℕ
  pub busy : List A
  pub finished : List A
  pub waiting : ℕ

-- The producer sends, an idle worker receives, and the worker at a position of `busy` is done.
pub data Move : Type 0 where
  send receive : Move
  complete : ℕ → Move

-- The number of workers for `n` items.
unfoldable pub pool_size : ℤ → ℕ → ℕ
pool_size (pos k) n = if (k == 0) || ltb n k then n else k
pool_size (negsuc k) n = n

module _ {A : Type 0} where
  abbrev pub take_out : ℕ → List A → Option (A × List A)
  take_out i [] = none
  take_out zero (x ∷ xs) = some (x, xs)
  take_out (suc i) (x ∷ xs) = elim (take_out i xs) [ none ↦ none | some (y, ys) ↦ some (y, x ∷ ys) ]

  -- The goroutines are started. Without a function there is an error.
  unfoldable pub do_func : Bool → ℤ → List A → Option (Pool A)
  unfolding pool_size
  do_func false size items = none
  do_func true size items = some (record {
    unsent = items;
    channel = [];
    idle = pool_size size (length items);
    busy = [];
    finished = [];
    waiting = length items;
  })

  -- A move, if it is possible.
  unfoldable pub move : Move → Pool A → Option (Pool A)
  move send p = elim p.unsent [
    | [] ↦ none
    | x ∷ xs ↦
        if ltb (length p.channel) 100
        then some (record p { unsent = xs; channel = p.channel ++ x ∷ [] })
        else none
  ]
  move receive p = elim p.channel [
    | [] ↦ none
    | x ∷ xs ↦
        if p.idle == 0
        then none
        else some (record p { channel = xs; idle = p.idle - 1; busy = x ∷ p.busy })
  ]
  move (complete i) p = elim (take_out i p.busy) [
    | none ↦ none
    | some (x, rest) ↦ some (record p {
      idle = p.idle + 1;
      busy = rest;
      finished = x ∷ p.finished;
      waiting = p.waiting - 1;
    })
  ]

  -- The states after any moves, counted.
  pub data Moves (p : Pool A) : ℕ → Pool A → Type 0 where
    at_first : Moves p 0 p
    and_move :
        {n : ℕ} {q r : Pool A} → Moves p n q → (m : Move) → move m q ≡ some r → Moves p (n + 1) r
