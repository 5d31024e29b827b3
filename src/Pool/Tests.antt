-- ===== src/Pool/Tests.antt =====
-- Two workers and three items.
use common_tools.Prelude.{
  ℕ, ◌≡◌, ◌<◌, ◌*◌, ◌⊎◌, refl, true, false, none, some, List, [], ◌∷◌, length,
}
use common_tools.Prelude.Int.{pos}
use common_tools.Pool.{
  Pool, Move, send, receive, pool_size, do_func, move, Moves, at_first, and_move,
}
use common_tools.Pool.Once.{IsDone, do_func_ends}

abbrev items : List ℕ
items = 4 ∷ 5 ∷ 6 ∷ []

abbrev at_start : Pool ℕ
at_start = record { unsent = items; channel = []; idle = 2; busy = []; finished = []; waiting = 3 }

abbrev sent_one : Pool ℕ
sent_one = record at_start { unsent = 5 ∷ 6 ∷ []; channel = 4 ∷ [] }

abbrev at_work : Pool ℕ
at_work = record at_start { unsent = 5 ∷ 6 ∷ []; idle = 1; busy = 4 ∷ [] }

started : do_func true (pos 2) items ≡ some at_start
unfolding do_func pool_size
started = refl

no_function : do_func false (pos 2) items ≡ none
unfolding do_func
no_function = refl

two-Moves : Moves at_start 2 at_work
unfolding move
two-Moves = and_move {q = sent_one} (and_move {q = at_start} at_first send refl) receive refl

do_func_ends_example :
    (IsDone items at_work × (2 ≡ 3 * length items))
    ⊎ ((2 < 3 * length items) × ((m : Move) × (r : Pool ℕ) × (move m at_work ≡ some r)))
do_func_ends_example = do_func_ends (pos 2) items at_start at_work 2 started two-Moves
