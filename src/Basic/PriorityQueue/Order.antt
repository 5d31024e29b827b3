-- ===== src/Basic/PriorityQueue/Order.antt =====
-- The order of strings is total and transitive.
use common_tools.Prelude.{
  ℕ, ◌≡◌, Bool, true, false, List, [], ◌∷◌, arith, Bool-cases, refl, inl, inr,
}
use common_tools.Basic.PriorityQueue.{str_lt, below}

str_lt_asymm : (a b : List ℕ) → str_lt a b ≡ true → str_lt b a ≡ false
unfolding str_lt
str_lt_asymm a [] h = ground arith
str_lt_asymm [] (y ∷ ys) h = refl
str_lt_asymm (x ∷ xs) (y ∷ ys) h = ground (arith, str_lt_asymm xs ys)

le_trans : (a b c : List ℕ) → str_lt b a ≡ false → str_lt c b ≡ false → str_lt c a ≡ false
unfolding str_lt
le_trans [] b c g h = ground arith
le_trans (x ∷ xs) [] c g h = ground arith
le_trans (x ∷ xs) (y ∷ ys) [] g h = ground arith
le_trans (x ∷ xs) (y ∷ ys) (z ∷ zs) g h = ground (arith, le_trans xs ys zs)

module _ {T : Type 0} (key : T → List ℕ) (max_first : Bool) where
  pub below_asymm : (x y : T) → below key max_first x y ≡ true → below key max_first y x ≡ false
  unfolding below
  below_asymm x y h = ground (arith, str_lt_asymm (key x) (key y), str_lt_asymm (key y) (key x))

  pub below_trans :
      (x y z : T)
      → below key max_first x y ≡ false
      → below key max_first y z ≡ false
      → below key max_first x z ≡ false
  unfolding below
  below_trans x y z g h =
      ground (arith, le_trans (key x) (key y) (key z), le_trans (key z) (key y) (key x))

  pub below_irrefl : (x : T) → below key max_first x x ≡ false
  unfolding below
  below_irrefl x = elim (Bool-cases (str_lt (key x) (key x))) [
    | inl e ↦ ground (arith, str_lt_asymm (key x) (key x))
    | inr e ↦ ground arith
  ]
