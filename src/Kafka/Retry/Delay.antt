-- ===== src/Kafka/Retry/Delay.antt =====
-- The delays double up to their bound.
use native.Mathlib.Nat.{pow-suc}
use common_tools.Prelude.{
  ℕ, zero, suc, ◌-◌, ◌*◌, ◌^◌, ◌≤◌, ◌<◌, ◌≡◌, refl, min, arith, Bool-cases, inl, inr, ltb,
}
use common_tools.Prelude.Int.{pos, double64}
use common_tools.Kafka.Retry.{double_loop, at_least_one, retry_delay_with_base}

pow_pos : (k : ℕ) → 0 < 2 ^ k
pow_pos zero = omega arith
pow_pos (suc k) = omega (arith, pow_pos k, pow-suc 2 k)

le_times : (d p : ℕ) → 0 < p → d ≤ d * p
le_times d p h = grind arith

-- The loop's result, as far as the bound can tell: the delay doubled `k` times.
double_loop_lem :
    (k m d : ℕ)
    → m ≤ 2 ^ 62
    → 0 < d
    → (r : ℕ) × (double_loop k (pos m) (pos d) ≡ pos r) × (min r m ≡ min (d * 2 ^ k) m)
unfolding double_loop
double_loop_lem zero m d h p = (d, refl, omega arith)
double_loop_lem (suc k) m d h p = elim (Bool-cases (ltb d m)) [
  | inl below ↦
      let (r, e, f) = double_loop_lem k m (2 * d) h (omega arith) in
      let twice : double64 (pos d) ≡ pos (2 * d) = ground arith in
      let regroup : 2 * d * 2 ^ k ≡ d * 2 ^ suc k = rw pow-suc (omega arith) in
      (r, ground (arith, twice, e), omega (arith, f, regroup))
  | inr reached ↦ (d, ground arith, ground (arith, le_times d (2 ^ suc k) (pow_pos (suc k))))
]

-- The delay after attempt `n` is the base doubled n - 1 times, and at most the bound; no product is
-- cut at 64 bits, for a positive base and a positive bound up to 2^62 nanoseconds.
pub retry_delay_with_base_lem :
    (n base max : ℕ)
    → 0 < n
    → 0 < base
    → 0 < max
    → max ≤ 2 ^ 62
    → retry_delay_with_base (pos n) (pos base) (pos max) ≡ pos (min (base * 2 ^ (n - 1)) max)
unfolding retry_delay_with_base
retry_delay_with_base_lem n base max hn hb hm h =
    let (r, e, f) = double_loop_lem (n - 1) max base h hb in
    let first : at_least_one (pos n) ≡ n = at_least_one_pos n hn in
    rw (first, e) (ground (arith, f))
  where
    at_least_one_pos : (k : ℕ) → 0 < k → at_least_one (pos k) ≡ k
    at_least_one_pos zero h = absurd (omega arith)
    at_least_one_pos (suc k) h = refl
