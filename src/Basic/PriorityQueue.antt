-- ===== src/Basic/PriorityQueue.antt =====
-- pkg/basic/object_priority_queue.go: a binary heap of the elements, ordered by their strings. A string is
-- the list of its bytes; `key` is the element's method `String`. A read or a write out of range panics.
pub mod Order
pub mod Swaps
pub mod Up
pub mod Down
pub mod Offer
pub mod Poll
pub mod Search
mod Tests
use common_tools.Prelude.{
  ℕ, zero, suc, ◌+◌, ◌-◌, ◌*◌, ◌/◌, ◌%◌, Bool, true, false, List, [], ◌∷◌, ◌++◌, Option, none, some,
  get_elem?, set, take, ltb, leb, ◌==◌, ◌&&◌, if◌then◌else◌,
}
use common_tools.Prelude.Run.{Run, ok, panic, out_of_fuel, ◌>>=◌, or_panic}

-- `<` on strings
unfoldable pub str_lt : List ℕ → List ℕ → Bool
str_lt a [] = false
str_lt [] (y ∷ ys) = true
str_lt (x ∷ xs) (y ∷ ys) =
    let rest = str_lt xs ys in if ltb x y then true else if x == y then rest else false

unfoldable pub str_equal : List ℕ → List ℕ → Bool
str_equal [] [] = true
str_equal (x ∷ xs) (y ∷ ys) = let rest = str_equal xs ys in if x == y then rest else false
str_equal _ _ = false

-- `cap` is the capacity of the slice `arr`.
pub record ObjectPriorityQueue (T : Type 0) : Type 0 where
  pub arr : List T
  pub cap : ℕ
  pub size : ℕ
  pub max_first : Bool

abbrev pub parent : ℕ → ℕ
parent i = (i - 1) / 2

module _ {T : Type 0} (key : T → List ℕ) where
  -- The test of `compare`: the first element belongs below the second.
  unfoldable pub below : Bool → T → T → Bool
  below max_first x y = if max_first then str_lt (key x) (key y) else str_lt (key y) (key x)

  load : List T → ℕ → Run T
  load a i = or_panic (get_elem? a i)

  pub compare : Bool → List T → ℕ → ℕ → Run Bool
  unfolding below load
  compare max_first a i j = do x ← load a i; y ← load a j; ok (below max_first x y)

  -- `tmp := arr[i]; arr[i] = arr[j]; arr[j] = tmp`
  pub swap : List T → ℕ → ℕ → Run (List T)
  unfolding load
  swap a i j = do x ← load a i; y ← load a j; ok (set (set a i y) j x)

  pub up_loop : ℕ → Bool → List T → ℕ → Run (List T)
  up_loop zero max_first a i = out_of_fuel
  up_loop (suc k) max_first a i =
      let rise = swap a (parent i) i >>= λ b. up_loop k max_first b (parent i) in
      let step = compare max_first a (parent i) i >>= λ out. if out then rise else ok a in
      if i == 0 then ok a else step

  -- One of the two tests of `down`.
  pick : Bool → ℕ → List T → ℕ → ℕ → Run ℕ
  pick max_first size a t child =
      let test = compare max_first a t child >>= λ out. ok (if out then child else t) in
      if ltb child size then test else ok t

  pub down_loop : ℕ → Bool → ℕ → List T → ℕ → Run (List T)
  down_loop zero max_first size a i = out_of_fuel
  down_loop (suc k) max_first size a i =
      let sink : ℕ → Run (List T) = λ t. swap a i t >>= λ b. down_loop k max_first size b t in
      pick max_first size a i (i * 2 + 1) >>= λ l.
      pick max_first size a l (i * 2 + 2) >>= λ t. if t == i then ok a else sink t

  -- `Offer`; `grow` is the capacity that `append` gives a full slice.
  unfoldable pub offer : (ℕ → ℕ) → T → ObjectPriorityQueue T → Run (ObjectPriorityQueue T)
  unfolding up_loop compare swap
  offer grow e q =
      let room = ltb q.size q.cap in
      let arr = (if room then take q.size q.arr else q.arr) ++ e ∷ [] in
      up_loop (q.size + 1) q.max_first arr q.size >>= λ up.
      ok (record q { arr = up; cap = if room then q.cap else grow q.cap; size = q.size + 1 })

  -- The slice moves to one of half the capacity when it is large and mostly empty.
  shrink : ℕ → ℕ → ℕ
  shrink size cap = if ltb size (cap / 2) && ltb 512 cap then cap / 2 else cap

  -- `Poll`; `none` stands for its error.
  unfoldable pub poll : ObjectPriorityQueue T → Run (ObjectPriorityQueue T × Option T)
  unfolding load down_loop pick compare swap shrink
  poll q =
      let size = q.size - 1 in
      let sift =
        load q.arr size >>= λ last. down_loop (size + 1) q.max_first size (set q.arr 0 last) 0 in
      if q.size == 0
      then ok (q, none)
      else load q.arr 0 >>= λ res. (if size == 0 then ok q.arr else sift) >>= λ arr.
          ok (record q { arr = take size arr; size = size; cap = shrink size q.cap }, some res)

  unfoldable pub peek : ObjectPriorityQueue T → Run (Option T)
  unfolding load
  peek q = if q.size == 0 then ok none else load q.arr 0 >>= λ first. ok (some first)

  -- The loop of `indexOf`; `none` stands for -1.
  pub index_loop : ℕ → List T → T → ℕ → Run (Option ℕ)
  unfolding load
  index_loop zero a e i = ok none
  index_loop (suc k) a e i =
      let rest = index_loop k a e (i + 1) in
      load a i >>= λ x. if str_equal (key x) (key e) then ok (some i) else rest

  unfoldable pub contains : T → ObjectPriorityQueue T → Run Bool
  unfolding index_loop
  contains e q =
      index_loop q.size q.arr e 0 >>= λ found. ok (elim found [ none ↦ false | some _ ↦ true ])
