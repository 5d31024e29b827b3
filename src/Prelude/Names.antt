-- ===== src/Prelude/Names.antt =====
-- Lists of names as sets, and the pigeonhole for two of them in a third.
use Prim.Native.Nat.{◌+◌, ◌≤◌, ◌<◌}
use Prim.Native.String.{String}
use mathlib.Core.Path.{◌≡◌, refl}
use mathlib.Core.Logic.{inl, inr}
use mathlib.Core.Bool.{Bool, true, false, ◌||◌}
use mathlib.Core.Option.{Option, none, some}
use mathlib.Core.List.{List, [], ◌∷◌, ◌++◌}
use native.Mathlib.Omega.{arith}
use text.Mathlib.Text.{◌==◌ as str_eq}
use text.Mathlib.TextEquality.{eq_iff}
use common_tools.Prelude.Lists.{length, All, length-append}
use common_tools.Prelude.Tests.{if◌then◌else◌, Option-cases}

unfoldable pub contains : String → List String → Bool
contains k [] = false
contains k (x ∷ xs) = str_eq x k || contains k xs

abbrev pub Distinct : List String → Type 0
Distinct [] = Unit
Distinct (x ∷ xs) = (contains x xs ≡ false) × Distinct xs

-- Every name of the first list is in the second.
abbrev pub Within : List String → List String → Type 0
Within xs zs = All (λ x. contains x zs ≡ true) xs

remove : String → List String → List String
remove k [] = []
remove k (x ∷ xs) = if str_eq x k then xs else x ∷ remove k xs

length-remove :
    (k : String) (xs : List String) → contains k xs ≡ true → length (remove k xs) + 1 ≡ length xs
unfolding remove contains
length-remove k [] h = absurd (ground arith)
length-remove k (x ∷ xs) h = ground (arith, length-remove k xs)

contains-remove_ne :
    (k x : String) (zs : List String)
    → str_eq k x ≡ false
    → contains x zs ≡ true
    → contains x (remove k zs) ≡ true
unfolding remove contains
contains-remove_ne k x [] n h = h
contains-remove_ne k x (z ∷ zs) n h =
    ground (arith, contains-remove_ne k x zs, eq_iff k x, eq_iff z k, eq_iff z x)

Within-remove :
    (k : String) (xs zs : List String)
    → contains k xs ≡ false
    → Within xs zs
    → Within xs (remove k zs)
unfolding contains
Within-remove k [] zs n w = tt
Within-remove k (x ∷ xs) zs n w = (
  contains-remove_ne k x zs (ground (arith, eq_iff k x, eq_iff x k)) w.0,
  Within-remove k xs zs (ground arith) w.1,
)

-- Distinct names within a list are no more than the list's.
pub length_of_Within : (xs zs : List String) → Distinct xs → Within xs zs → length xs ≤ length zs
length_of_Within [] zs d w = omega arith
length_of_Within (x ∷ xs) zs d w = omega (
  arith,
  length_of_Within xs (remove x zs) d.1 (Within-remove x xs zs d.0 w.1),
  length-remove x zs w.0,
)

-- The first name of one list that is in another.
shared : List String → List String → Option String
shared [] ys = none
shared (x ∷ xs) ys = if contains x ys then some x else shared xs ys

shared-some :
    (xs ys : List String) (k : String)
    → shared xs ys ≡ some k
    → (contains k xs ≡ true) × (contains k ys ≡ true)
unfolding shared contains
shared-some [] ys k h = absurd (ground arith)
shared-some (x ∷ xs) ys k h = ground (arith, shared-some xs ys k, eq_iff x k)

pub contains-append :
    (k : String) (xs ys : List String) → contains k (xs ++ ys) ≡ (contains k xs || contains k ys)
unfolding contains
contains-append k [] ys = refl
contains-append k (x ∷ xs) ys = ground (arith, contains-append k xs ys)

Distinct-append :
    (xs ys : List String) → Distinct xs → Distinct ys → shared xs ys ≡ none → Distinct (xs ++ ys)
unfolding shared
Distinct-append [] ys d e n = e
Distinct-append (x ∷ xs) ys d e n =
    (ground (arith, contains-append x xs ys), Distinct-append xs ys d.1 e (ground arith))

Within-append : (xs ys zs : List String) → Within xs zs → Within ys zs → Within (xs ++ ys) zs
Within-append [] ys zs v w = w
Within-append (x ∷ xs) ys zs v w = (v.0, Within-append xs ys zs v.1 w)

-- Two sets of names that together outnumber a third, which holds both, have a name in common.
pub common_name :
    (xs ys zs : List String)
    → Distinct xs
    → Distinct ys
    → Within xs zs
    → Within ys zs
    → length zs < length xs + length ys
    → (k : String) × (contains k xs ≡ true) × (contains k ys ≡ true)
common_name xs ys zs d e v w more = elim (Option-cases (shared xs ys)) [
  | inl apart ↦ absurd (
      omega (
        arith,
        length_of_Within (xs ++ ys) zs (Distinct-append xs ys d e apart)
            (Within-append xs ys zs v w),
        length-append xs ys,
      ))
  | inr (k, found) ↦ let (a, b) = shared-some xs ys k found in (k, a, b)
]
