-- ===== src/Prelude/Run.antt =====
-- Code that may panic, and loops on fuel.
use common_tools.Prelude.Tests.{if◌then◌else◌}
use mathlib.Core.Path.{◌≡◌, refl, ◌∙◌, ap}
use mathlib.Core.Bool.{Bool, true, false}
use mathlib.Core.Option.{Option, none, some}

pub data Run {ℓ} (A : Type ℓ) : Type ℓ where
  ok : A → Run A
  panic : Run A
  out_of_fuel : Run A

infixl 5 ◌>>=◌
abbrev pub ◌>>=◌ {κ ℓ} : {X : Type κ} {Y : Type ℓ} → Run X → (X → Run Y) → Run Y
out_of_fuel >>= rest = out_of_fuel
panic >>= rest = panic
ok x >>= rest = rest x

-- What a look-up finds; nothing is an index out of range.
abbrev pub or_panic {ℓ} : {A : Type ℓ} → Option A → Run A
or_panic none = panic
or_panic (some a) = ok a

-- The run ends with a value that has the property.
abbrev pub Returns {ℓ κ} : {A : Type ℓ} → (A → Type κ) → Run A → Type (ℓ ⊔ κ)
Returns {A} P r = (a : A) × (r ≡ ok a) × P a

module _ {ℓ κ} {A : Type ℓ} {P : A → Type κ} where
  pub returns : (a : A) → P a → Returns P (ok a)
  returns a p = (a, refl, p)

  pub Returns-bind {ι μ} :
      {Y : Type ι} {Q : Y → Type μ} {run : Run A} (rest : A → Run Y)
      → Returns P run
      → ((x : A) → P x → Returns Q (rest x))
      → Returns Q (run >>= rest)
  Returns-bind rest (x, e, p) go = let (y, d, q) = go x p in (y, ap (λ r. r >>= rest) e ∙ d, q)

  pub Returns-weaken {μ} :
      {Q : A → Type μ} {run : Run A} → Returns P run → ((x : A) → P x → Q x) → Returns Q run
  Returns-weaken (x, e, p) go = (x, e, go x p)

  pub Returns-if :
      {first second : Run A} (test : Bool)
      → (test ≡ true → Returns P first)
      → (test ≡ false → Returns P second)
      → Returns P (if test then first else second)
  Returns-if true holds fails = holds refl
  Returns-if false holds fails = fails refl
