-- ===== src/Basic/DelayQueue/Decimal.antt =====
-- Decimal numbers with as many digits compare as strings like the numbers.
use native.Mathlib.Nat.{pow-suc}
use common_tools.Prelude.{
  ℕ, zero, suc, ◌+◌, ◌/◌, ◌%◌, ◌^◌, ◌≡◌, ◌≤◌, ◌<◌, refl, true, false, List, [], ◌∷◌, ◌++◌, length,
  length-append, ltb, if◌then◌else◌, arith,
}
use common_tools.Basic.PriorityQueue.{str_lt}
use common_tools.Basic.DelayQueue.{decimal_loop, decimal}

-- The last `k` digits.
digits : ℕ → ℕ → List ℕ
digits zero n = []
digits (suc k) n = digits k (n / 10) ++ (48 + n % 10) ∷ []

length-digits : (k n : ℕ) → length (digits k n) ≡ k
unfolding digits
length-digits zero n = refl
length-digits (suc k) n =
    omega (arith, length-append (digits k (n / 10)) ((48 + n % 10) ∷ []), length-digits k (n / 10))

-- The last byte tells when the ones before it do not.
str_lt-last :
    (xs ys : List ℕ) (x y : ℕ)
    → length xs ≡ length ys
    → str_lt (xs ++ x ∷ []) (ys ++ y ∷ [])
      ≡ (if str_lt xs ys then true else if str_lt ys xs then false else ltb x y)
unfolding str_lt
str_lt-last [] [] x y h = ground arith
str_lt-last [] (b ∷ ys) x y h = absurd (omega (arith, h))
str_lt-last (a ∷ xs) [] x y h = absurd (omega (arith, h))
str_lt-last (a ∷ xs) (b ∷ ys) x y h = ground (arith, str_lt-last xs ys x y)

str_lt-digits : (k a b : ℕ) → a < 10 ^ k → b < 10 ^ k → str_lt (digits k a) (digits k b) ≡ ltb a b
unfolding digits str_lt
str_lt-digits zero a b ha hb = ground arith
str_lt-digits (suc k) a b ha hb =
    let same : length (digits k (a / 10)) ≡ length (digits k (b / 10)) =
      omega (arith, length-digits k (a / 10), length-digits k (b / 10)) in
    let small_a : a / 10 < 10 ^ k = omega (arith, pow-suc 10 k) in
    let small_b : b / 10 < 10 ^ k = omega (arith, pow-suc 10 k) in
    rw (str_lt-last (digits k (a / 10)) (digits k (b / 10)) (48 + a % 10) (48 + b % 10) same) (
      rw
        (
          str_lt-digits k (a / 10) (b / 10) small_a small_b,
          str_lt-digits k (b / 10) (a / 10) small_b small_a,
        )
        (ground arith))

pow_pos : (k : ℕ) → 0 < 10 ^ k
pow_pos zero = omega arith
pow_pos (suc k) = omega (arith, pow_pos k, pow-suc 10 k)

decimal_loop-digits :
    (fuel k n : ℕ) → k < fuel → 10 ^ k ≤ n → n < 10 ^ suc k → decimal_loop fuel n ≡ digits (suc k) n
unfolding decimal_loop digits
decimal_loop-digits zero k n f lo hi = absurd (omega arith)
decimal_loop-digits (suc fuel) zero n f lo hi =
    let small : n < 10 = omega (arith, hi) in ground (arith, small)
decimal_loop-digits (suc fuel) (suc k) n f lo hi =
    let ten : 0 < 10 ^ k = pow_pos k in
    let large : ltb n 10 ≡ false = ground (arith, ten, pow-suc 10 k) in
    let rest =
      decimal_loop-digits fuel k (n / 10) (omega arith) (omega (arith, pow-suc 10 k))
        (omega (arith, pow-suc 10 (suc k))) in
    rw (large, rest) refl

-- Times of 19 digits, from 2001 to 2286, compare as strings as they do as numbers.
pub str_lt-decimal :
    (a b : ℕ)
    → 10 ^ 18 ≤ a
    → a < 10 ^ 19
    → 10 ^ 18 ≤ b
    → b < 10 ^ 19
    → str_lt (decimal a) (decimal b) ≡ ltb a b
unfolding decimal
str_lt-decimal a b la ha lb hb =
    rw
      (
        decimal_loop-digits 20 18 a (omega arith) la ha,
        decimal_loop-digits 20 18 b (omega arith) lb hb,
      )
      (str_lt-digits 19 a b ha hb)
