-- ===== src/Basic/Chain.antt =====
-- The order of a doubly linked list: the addresses of its nodes, and the neighbours of each.
use common_tools.Prelude.{
  ℕ, suc, ◌≡◌, ◌≢◌, refl, Bool, true, false, Option, none, some, List, [], ◌∷◌, ◌++◌, arith, ◌==◌,
  if◌then◌else◌, Bool-cases, inl, inr, length, sym, subst,
}

abbrev pub member : ℕ → List ℕ → Bool
member i [] = false
member i (x ∷ xs) = if x == i then true else member i xs

abbrev pub Distinct : List ℕ → Type 0
Distinct [] = Unit
Distinct (x ∷ xs) = (member x xs ≡ false) × Distinct xs

abbrev pub is_at : Option ℕ → ℕ → Bool
is_at none i = false
is_at (some x) i = x == i

abbrev pub first : List ℕ → Option ℕ
first [] = none
first (x ∷ xs) = some x

-- The last element, `p` if there is none.
abbrev pub last_from : Option ℕ → List ℕ → Option ℕ
last_from p [] = p
last_from p (x ∷ xs) = last_from (some x) xs

abbrev pub succ_of : ℕ → List ℕ → Option ℕ
succ_of i [] = none
succ_of i (x ∷ xs) = if x == i then first xs else succ_of i xs

-- The element before `i`, `p` if it is the first.
abbrev pub pred_from : Option ℕ → ℕ → List ℕ → Option ℕ
pred_from p i [] = none
pred_from p i (x ∷ xs) = if x == i then p else pred_from (some x) i xs

abbrev pub erase : ℕ → List ℕ → List ℕ
erase i [] = []
erase i (x ∷ xs) = if x == i then xs else x ∷ erase i xs

pred_from-other :
    (p : Option ℕ) (i x : ℕ) (xs : List ℕ)
    → is_at p x ≡ false
    → member x xs ≡ false
    → is_at (pred_from p i xs) x ≡ false
pred_from-other p i x [] h m = refl
pred_from-other p i x (y ∷ ys) h m = ground (arith, h, m, pred_from-other (some y) i x ys)

first-other : (x : ℕ) (xs : List ℕ) → member x xs ≡ false → is_at (first xs) x ≡ false
first-other x [] m = refl
first-other x (y ∷ ys) m = ground (arith, m)

succ_of-other : (i x : ℕ) (xs : List ℕ) → member x xs ≡ false → is_at (succ_of i xs) x ≡ false
succ_of-other i x [] m = refl
succ_of-other i x (y ∷ ys) m = ground (arith, m, succ_of-other i x ys, first-other x ys)

first-erase-next :
    (x i : ℕ) (xs : List ℕ)
    → member x xs ≡ false
    → member i xs ≡ true
    → first (erase i xs) ≡ (if is_at (pred_from (some x) i xs) x then succ_of i xs else first xs)
first-erase-next x i [] m n = ground (arith, n)
first-erase-next x i (w ∷ ws) m n = ground (arith, m, n, pred_from-other (some w) i x ws)

-- The successors without `i`: the one before it is followed by the one after it.
pub succ_of-erase :
    (p : Option ℕ) (i j : ℕ) (xs : List ℕ)
    → Distinct xs
    → is_at p j ≡ false
    → j ≢ i
    → member i xs ≡ true
    → member j xs ≡ true
    → succ_of j (erase i xs) ≡ (if is_at (pred_from p i xs) j then succ_of i xs else succ_of j xs)
succ_of-erase p i j [] d h ne mi mj = ground (arith, mi)
succ_of-erase p i j (x ∷ xs) d h ne mi mj =
    ground (arith, h, mi, mj, d.0, succ_of-erase (some x) i j xs d.1, first-erase-next x i xs d.0)

pub pred_from-erase :
    (p : Option ℕ) (i j : ℕ) (xs : List ℕ)
    → Distinct xs
    → j ≢ i
    → member i xs ≡ true
    → member j xs ≡ true
    → pred_from p j (erase i xs)
      ≡ (if is_at (succ_of i xs) j then pred_from p i xs else pred_from p j xs)
pred_from-erase p i j [] d ne mi mj = ground (arith, mi)
pred_from-erase p i j (x ∷ []) d ne mi mj = ground (arith, mi, mj)
pred_from-erase p i j (x ∷ w ∷ ws) d ne mi mj =
    ground (
      arith,
      mi,
      mj,
      d.0,
      pred_from-erase (some x) i j (w ∷ ws) d.1,
      succ_of-other i x (w ∷ ws) d.0,
    )

-- A link that is there, or else what stands for a missing one.
abbrev pub or_else {ℓ} : {A : Type ℓ} → Option ℕ → A → A → A
or_else none x y = x
or_else (some _) x y = y

pred_from-some :
    (x i : ℕ) (xs : List ℕ)
    → member i xs ≡ true
    → or_else (pred_from (some x) i xs) true false ≡ false
pred_from-some x i [] m = ground (arith, m)
pred_from-some x i (y ∷ ys) m = ground (arith, m, pred_from-some y i ys)

pub first-erase :
    (i : ℕ) (xs : List ℕ)
    → member i xs ≡ true
    → first (erase i xs) ≡ or_else (pred_from none i xs) (succ_of i xs) (first xs)
first-erase i [] m = ground (arith, m)
first-erase i (x ∷ xs) m = ground (arith, m, pred_from-some x i xs)

pub last_from-erase :
    (p : Option ℕ) (i : ℕ) (xs : List ℕ)
    → member i xs ≡ true
    → last_from p (erase i xs) ≡ or_else (succ_of i xs) (pred_from p i xs) (last_from p xs)
last_from-erase p i [] m = ground (arith, m)
last_from-erase p i (x ∷ []) m = ground (arith, m)
last_from-erase p i (x ∷ w ∷ ws) m = ground (arith, m, last_from-erase (some x) i (w ∷ ws))

pub member-erase :
    (i j : ℕ) (xs : List ℕ)
    → Distinct xs
    → member j (erase i xs) ≡ (if j == i then false else member j xs)
member-erase i j [] d = ground arith
member-erase i j (x ∷ xs) d = ground (arith, d.0, member-erase i j xs d.1)

pub erase-Distinct : (i : ℕ) (xs : List ℕ) → Distinct xs → Distinct (erase i xs)
erase-Distinct i [] d = tt
erase-Distinct i (x ∷ xs) d = elim (Bool-cases (x == i)) [
  | inl e ↦ rw e d.1
  | inr e ↦ rw e (ground (arith, member-erase i x xs d.1, d.0), erase-Distinct i xs d.1)
]

last_from-other :
    (w j : ℕ) (xs : List ℕ)
    → (w == j) ≡ false
    → member j xs ≡ false
    → is_at (last_from (some w) xs) j ≡ false
last_from-other w j [] h m = h
last_from-other w j (x ∷ xs) h m = ground (arith, h, m, last_from-other x j xs)

pub succ_of-append :
    (p : Option ℕ) (n j : ℕ) (xs : List ℕ)
    → Distinct xs
    → is_at p j ≡ false
    → member j xs ≡ true
    → succ_of j (xs ++ n ∷ []) ≡ (if is_at (last_from p xs) j then some n else succ_of j xs)
succ_of-append p n j [] d h m = ground (arith, m)
succ_of-append p n j (x ∷ []) d h m = ground (arith, m, h)
succ_of-append p n j (x ∷ w ∷ ws) d h m =
    ground (arith, m, h, d.0, succ_of-append (some x) n j (w ∷ ws) d.1, last_from-other w j ws)

pub pred_from-append :
    (p : Option ℕ) (n j : ℕ) (xs : List ℕ)
    → member n xs ≡ false
    → pred_from p j (xs ++ n ∷ []) ≡ (if n == j then last_from p xs else pred_from p j xs)
pred_from-append p n j [] m = ground arith
pred_from-append p n j (x ∷ xs) m = ground (arith, m, pred_from-append (some x) n j xs)

pub member-append :
    (n j : ℕ) (xs : List ℕ) → member j (xs ++ n ∷ []) ≡ (if n == j then true else member j xs)
member-append n j [] = ground arith
member-append n j (x ∷ xs) = ground (arith, member-append n j xs)

pub append-Distinct :
    (n : ℕ) (xs : List ℕ) → Distinct xs → member n xs ≡ false → Distinct (xs ++ n ∷ [])
append-Distinct n [] d m = (refl, tt)
append-Distinct n (x ∷ xs) d m =
    (ground (arith, m, d.0, member-append n x xs), append-Distinct n xs d.1 (ground (arith, m)))

pub last_from-append : (p : Option ℕ) (n : ℕ) (xs : List ℕ) → last_from p (xs ++ n ∷ []) ≡ some n
last_from-append p n [] = refl
last_from-append p n (x ∷ xs) = last_from-append (some x) n xs

pub pred_from-itself :
    (p : Option ℕ) (i : ℕ) (xs : List ℕ)
    → Distinct xs
    → is_at p i ≡ false
    → is_at (pred_from p i xs) i ≡ false
pred_from-itself p i [] d h = refl
pred_from-itself p i (x ∷ xs) d h = ground (arith, h, pred_from-itself (some x) i xs d.1)

pub last_from-some : (x : ℕ) (xs : List ℕ) → or_else (last_from (some x) xs) true false ≡ false
last_from-some x [] = refl
last_from-some x (y ∷ ys) = last_from-some y ys

-- Behind a new first element, only the old first has a new predecessor.
pub front_pred :
    (n i : ℕ) (xs : List ℕ)
    → Distinct xs
    → member i xs ≡ true
    → pred_from (some n) i xs ≡ (if is_at (first xs) i then some n else pred_from none i xs)
front_pred n i [] d m = ground (arith, m)
front_pred n i (x ∷ xs) d m = ground (arith, m)

pub length-erase :
    (i : ℕ) (xs : List ℕ) → member i xs ≡ true → length xs ≡ suc (length (erase i xs))
length-erase i [] m = ground (arith, m)
length-erase i (x ∷ xs) m = ground (arith, m, length-erase i xs)

pub last_from-outside :
    (p : Option ℕ) (n : ℕ) (xs : List ℕ)
    → is_at p n ≡ false
    → member n xs ≡ false
    → is_at (last_from p xs) n ≡ false
last_from-outside p n [] h m = h
last_from-outside p n (x ∷ xs) h m = ground (arith, m, last_from-other x n xs)

pub succ_of-end : (n : ℕ) (xs : List ℕ) → member n xs ≡ false → succ_of n (xs ++ n ∷ []) ≡ none
succ_of-end n [] m = ground arith
succ_of-end n (x ∷ xs) m = ground (arith, m, succ_of-end n xs)

pub first-append :
    (n : ℕ) (xs : List ℕ) → first (xs ++ n ∷ []) ≡ or_else (last_from none xs) (some n) (first xs)
first-append n [] = refl
first-append n (x ∷ xs) = ground (arith, last_from-some x xs)

pub last_from-member :
    (x : ℕ) (xs : List ℕ) (n : ℕ) → last_from (some x) xs ≡ some n → member n (x ∷ xs) ≡ true
last_from-member x [] n e = ground (arith, e)
last_from-member x (y ∷ ys) n e = ground (arith, last_from-member y ys n e)

pub succ_of-itself : (i : ℕ) (xs : List ℕ) → Distinct xs → is_at (succ_of i xs) i ≡ false
succ_of-itself i [] d = refl
succ_of-itself i (x ∷ xs) d = ground (arith, succ_of-itself i xs d.1, d.0, first-other x xs)

-- The last element is the one without a successor.
pub last-succ :
    (p : Option ℕ) (i : ℕ) (xs : List ℕ)
    → Distinct xs
    → is_at p i ≡ false
    → member i xs ≡ true
    → is_at (last_from p xs) i ≡ or_else (succ_of i xs) true false
last-succ p i [] d h m = ground (arith, m)
last-succ p i (x ∷ []) d h m = ground (arith, m)
last-succ p i (x ∷ w ∷ ws) d h m =
    ground (arith, m, d.0, last-succ (some x) i (w ∷ ws) d.1, last_from-other w x ws)

pub pred_from-inner :
    (i : ℕ) (xs : List ℕ)
    → member i xs ≡ true
    → is_at (first xs) i ≡ false
    → or_else (pred_from none i xs) true false ≡ false
pred_from-inner i [] m h = ground (arith, m)
pred_from-inner i (x ∷ xs) m h = ground (arith, m, h, pred_from-some x i xs)

pub last_from-filled :
    (i : ℕ) (xs : List ℕ) → member i xs ≡ true → or_else (last_from none xs) true false ≡ false
last_from-filled i [] m = ground (arith, m)
last_from-filled i (x ∷ xs) m = last_from-some x xs

pub first-outside : (n : ℕ) (xs : List ℕ) → member n xs ≡ false → is_at (first xs) n ≡ false
first-outside n xs h = first-other n xs h

pub ends-filled :
    (xs : List ℕ) → or_else (first xs) true false ≡ or_else (last_from none xs) true false
ends-filled [] = refl
ends-filled (x ∷ xs) = sym (last_from-some x xs)

pub last_from-next :
    (xs : List ℕ) (t : ℕ)
    → Distinct xs
    → last_from none xs ≡ some t
    → (member t xs ≡ true) × (succ_of t xs ≡ none)
last_from-next [] t d e = absurd cc
last_from-next (x ∷ xs) t d e =
    let m = last_from-member x xs t e in (m, ground (arith, e, last-succ none t (x ∷ xs) d refl m))

member-apart : (x t : ℕ) (xs : List ℕ) → member x xs ≡ false → member t xs ≡ true → (x == t) ≡ false
member-apart x t xs h m = elim (Bool-cases (x == t)) [
  | inl e ↦
      let at : x ≡ t = ground (arith, e) in
      let both : member x xs ≡ true = subst (λ j. member j xs ≡ true) (sym at) m in
      absurd (ground (arith, both, h))
  | inr e ↦ e
]

-- The last of several elements has one before it, which is another.
pub last_from-pred :
    (x w : ℕ) (ws : List ℕ) (t : ℕ)
    → Distinct (x ∷ w ∷ ws)
    → last_from none (x ∷ w ∷ ws) ≡ some t
    → or_else (pred_from none t (x ∷ w ∷ ws)) true false ≡ false
last_from-pred x w ws t d e =
    let m = last_from-member w ws t e in
    let other : (x == t) ≡ false = member-apart x t (w ∷ ws) d.0 m in
    let before = pred_from-some x t (w ∷ ws) m in rw other before
