-- ===== src/Basic/PriorityQueue/Tests.antt =====
-- A queue of numbers, each with one byte as its string.
use common_tools.Prelude.{ℕ, ◌+◌, ◌*◌, ◌<◌, ◌≡◌, refl, false, some, List, [], ◌∷◌, arith, zero, suc}
use common_tools.Prelude.Run.{ok, Returns}
use common_tools.Basic.PriorityQueue.{ObjectPriorityQueue, offer, poll, peek, below, str_lt}
use common_tools.Basic.PriorityQueue.Swaps.{IsHeap}
use common_tools.Basic.PriorityQueue.Offer.{IsQueue, Offered, offer_adds}
use common_tools.Basic.PriorityQueue.Poll.{Polled, poll_takes}

abbrev byte : ℕ → List ℕ
byte n = n ∷ []

abbrev double : ℕ → ℕ
double c = 2 * c + 1

abbrev three : ObjectPriorityQueue ℕ
three = record { arr = 2 ∷ 5 ∷ 3 ∷ []; cap = 3; size = 3; max_first = false }

-- A new element moves up to the first place.
offered :
    offer byte double 1 three
    ≡ ok (record { arr = 1 ∷ 2 ∷ 3 ∷ 5 ∷ []; cap = 7; size = 4; max_first = false })
unfolding offer str_lt
offered = refl

polled :
    poll byte three ≡ ok (record { arr = 3 ∷ 5 ∷ []; cap = 3; size = 2; max_first = false }, some 2)
unfolding poll str_lt
polled = refl

peeked : peek byte three ≡ ok (some 2)
unfolding peek
peeked = refl

three-IsHeap : IsHeap byte 0 false 3 three.arr
unfolding below str_lt
three-IsHeap zero p h = absurd (omega arith)
three-IsHeap (suc zero) p h = refl
three-IsHeap (suc (suc zero)) p h = refl
three-IsHeap (suc (suc (suc c))) p h = absurd (omega arith)

three-IsQueue : IsQueue byte 0 three
three-IsQueue = record { counted = refl; fits = omega arith; heap = three-IsHeap }

double_grows : (c : ℕ) → c < double c
double_grows c = omega arith

offer_adds_example : Returns (Offered byte 0 1 three) (offer byte double 1 three)
offer_adds_example = offer_adds byte 0 double 1 three double_grows three-IsQueue

poll_takes_example : Returns (Polled byte 0 three) (poll byte three)
poll_takes_example = poll_takes byte 0 three three-IsQueue
