-- ===== src/Prelude/Count.antt =====
-- How many elements of a list pass a test. Two lists hold the same elements, in any order, when every
-- test counts as many in both.
use Prim.Native.Nat.{ℕ, zero, suc, ◌+◌, ◌<◌, ◌≤◌}
use common_tools.Prelude.Lists.{length, get_or, set, take}
use mathlib.Core.Path.{◌≡◌, refl}
use mathlib.Core.Bool.{Bool, true, false}
use mathlib.Core.List.{List, [], ◌∷◌, ◌++◌}
use native.Mathlib.Omega.{arith}

abbrev pub one : Bool → ℕ
one true = 1
one false = 0

module _ {ℓ} {A : Type ℓ} (p : A → Bool) where
  abbrev pub count : List A → ℕ
  count [] = 0
  count (x ∷ xs) = one (p x) + count xs

  pub count-append : (xs ys : List A) → count (xs ++ ys) ≡ count xs + count ys
  count-append [] ys = omega arith
  count-append (x ∷ xs) ys = omega (arith, count-append xs ys)

  pub count-set :
      (xs : List A) (i : ℕ) (v d : A)
      → i < length xs
      → count (set xs i v) + one (p (get_or xs i d)) ≡ count xs + one (p v)
  count-set [] i v d h = absurd (omega arith)
  count-set (x ∷ xs) zero v d h = omega arith
  count-set (x ∷ xs) (suc i) v d h = omega (arith, count-set xs i v d)

  -- The last element, and those before it.
  pub count-take :
      (n : ℕ) (xs : List A) (d : A)
      → length xs ≡ suc n
      → count xs ≡ count (take n xs) + one (p (get_or xs n d))
  count-take n [] d h = absurd (omega arith)
  count-take zero (x ∷ []) d h = omega arith
  count-take zero (x ∷ y ∷ xs) d h = absurd (omega arith)
  count-take (suc n) (x ∷ xs) d h = omega (arith, count-take n xs d (omega arith))

  -- A test that no entry passes counts none.
  pub count-none :
      (xs : List A) (d : A) → ((i : ℕ) → i < length xs → p (get_or xs i d) ≡ false) → count xs ≡ 0
  count-none [] d h = refl
  count-none (x ∷ xs) d h = ground (arith, h 0, count-none xs d (λ i hi. h (suc i) (omega arith)))

  pub count-get_or :
      (xs : List A) (d : A) (i : ℕ) → i < length xs → one (p (get_or xs i d)) ≤ count xs
  count-get_or [] d i h = absurd (omega arith)
  count-get_or (x ∷ xs) d zero h = omega arith
  count-get_or (x ∷ xs) d (suc i) h = omega (arith, count-get_or xs d i (omega arith))

  pub count-zero :
      (xs : List A) (d : A) (i : ℕ) → count xs ≡ 0 → i < length xs → p (get_or xs i d) ≡ false
  count-zero [] d i e h = absurd (omega arith)
  count-zero (x ∷ xs) d zero e h = ground (arith, e)
  count-zero (x ∷ xs) d (suc i) e h = count-zero xs d i (omega (arith, e)) (omega arith)

module _ {ℓ} {A : Type ℓ} (p q : A → Bool) where
  pub count_mono : (xs : List A) → ((x : A) → p x ≡ true → q x ≡ true) → count p xs ≤ count q xs
  count_mono [] h = omega arith
  count_mono (x ∷ xs) h = ground (arith, h x, count_mono xs h)
