-- ===== src/Basic/LinkedHashMap/Entries.antt =====
-- The map's entries in order, as a list of pairs with distinct keys, and the operations on such a list.
use common_tools.Prelude.{
  ℕ, ◌≡◌, ◌≢◌, refl, sym, subst, ap, Bool, true, false, Option, none, some, List, [], ◌∷◌, ◌++◌,
  arith, ◌==◌, if◌then◌else◌, Bool-cases, inl, inr,
}
use common_tools.Basic.Chain.{member, Distinct, erase, is_at, first}
use common_tools.Basic.LinkedHashMap.{Node, store_node}

module _ {K T : Type 0} (same : K → K → Bool) where
  abbrev pub lookup : K → List (K × T) → Option T
  lookup k [] = none
  lookup k ((j, v) ∷ es) = if same j k then some v else lookup k es

  -- The value of a key that is there changes; another key goes to the end.
  abbrev pub insert : K → T → List (K × T) → List (K × T)
  insert k v [] = (k, v) ∷ []
  insert k v ((j, w) ∷ es) = if same j k then (j, v) ∷ es else (j, w) ∷ insert k v es

  abbrev pub delete : K → List (K × T) → List (K × T)
  delete k [] = []
  delete k ((j, v) ∷ es) = if same j k then es else (j, v) ∷ delete k es

  abbrev pub to_front : K → List (K × T) → List (K × T)
  to_front k es = elim (lookup k es) [ none ↦ es | some v ↦ (k, v) ∷ delete k es ]

module _ {K T : Type 0} where
  abbrev pub entry : Node K T → K × T
  entry n = (n.key, n.value)

  abbrev pub entries : (ℕ → Node K T) → List ℕ → List (K × T)
  entries nodes [] = []
  entries nodes (x ∷ xs) = entry (nodes x) ∷ entries nodes xs

  pub entries-same :
      (f g : ℕ → Node K T) (xs : List ℕ)
      → ((i : ℕ) → member i xs ≡ true → entry (f i) ≡ entry (g i))
      → entries f xs ≡ entries g xs
  entries-same f g [] h = refl
  entries-same f g (x ∷ xs) h =
      let tails = entries-same f g xs (λ i m. h i (ground (arith, m))) in
      let heads = h x (ground arith) in cc

  pub entries-front :
      (f : ℕ → Node K T) (n : ℕ) (xs : List ℕ)
      → is_at (first xs) n ≡ true
      → entries f xs ≡ entry (f n) ∷ entries f (erase n xs)
  entries-front f n [] h = ground (arith, h)
  entries-front f n (x ∷ xs) h =
      let at : x ≡ n = ground (arith, h) in rw h (ap (λ j. entry (f j) ∷ entries f xs) at)

  module _ (same : K → K → Bool) (k : K) (f : ℕ → Node K T) where
    -- No node of the list has the key.
    abbrev pub Absent : List ℕ → Type 0
    Absent xs = (i : ℕ) → member i xs ≡ true → same (f i).key k ≡ false

    -- The node has the key, and no other node of the list has it.
    abbrev pub Only : ℕ → List ℕ → Type 0
    Only n xs =
        (same (f n).key k ≡ true)
        × ((i : ℕ) → member i xs ≡ true → i ≢ n → same (f i).key k ≡ false)

    pub lookup-Absent : (xs : List ℕ) → Absent xs → lookup same k (entries f xs) ≡ none
    lookup-Absent [] a = refl
    lookup-Absent (x ∷ xs) a =
        ground (arith, a x, lookup-Absent xs (λ i m. a i (ground (arith, m))))

    pub delete-Absent : (xs : List ℕ) → Absent xs → delete same k (entries f xs) ≡ entries f xs
    delete-Absent [] a = refl
    delete-Absent (x ∷ xs) a =
        let more = delete-Absent xs (λ i m. a i (ground (arith, m))) in
        let other = a x (ground arith) in rw (other, more) refl

    pub insert-Absent :
        (v : T) (xs : List ℕ)
        → Absent xs
        → insert same k v (entries f xs) ≡ entries f xs ++ (k, v) ∷ []
    insert-Absent v [] a = refl
    insert-Absent v (x ∷ xs) a =
        let more = insert-Absent v xs (λ i m. a i (ground (arith, m))) in
        let other = a x (ground arith) in rw (other, more) refl

    pub lookup-Only :
        (n : ℕ) (xs : List ℕ)
        → member n xs ≡ true
        → Only n xs
        → lookup same k (entries f xs) ≡ some (f n).value
    lookup-Only n [] m o = ground (arith, m)
    lookup-Only n (x ∷ xs) m o = elim (Bool-cases (x == n)) [
      | inl e ↦
          let at : x ≡ n = ground (arith, e) in
          subst (λ j. lookup same k (entries f (j ∷ xs)) ≡ some (f n).value) (sym at) (rw o.0 refl)
      | inr e ↦
          let other = o.1 x (ground arith) (ground (arith, e)) in
          rw other
            (lookup-Only n xs (ground (arith, m, e)) (o.0, λ i h ne. o.1 i (ground (arith, h)) ne))
    ]

    pub delete-Only :
        (n : ℕ) (xs : List ℕ)
        → member n xs ≡ true
        → Only n xs
        → delete same k (entries f xs) ≡ entries f (erase n xs)
    delete-Only n [] m o = refl
    delete-Only n (x ∷ xs) m o = elim (Bool-cases (x == n)) [
      | inl e ↦
          let at : x ≡ n = ground (arith, e) in
          let found = subst (λ j. same (f j).key k ≡ true) (sym at) o.0 in rw (e, found) refl
      | inr e ↦
          let other = o.1 x (ground arith) (ground (arith, e)) in
          rw (e, other)
            (ap (λ es. entry (f x) ∷ es)
              (delete-Only n xs (ground (arith, m, e))
                (o.0, λ i h ne. o.1 i (ground (arith, h)) ne)))
    ]

    abbrev pub updated : ℕ → T → ℕ → Node K T
    updated n v = store_node n (record (f n) { value = v }) f

    pub insert-Only :
        (n : ℕ) (v : T) (xs : List ℕ)
        → Distinct xs
        → member n xs ≡ true
        → Only n xs
        → insert same k v (entries f xs) ≡ entries (updated n v) xs
    insert-Only n v [] d m o = ground (arith, m)
    insert-Only n v (x ∷ xs) d m o = elim (Bool-cases (x == n)) [
      | inl e ↦
          let at : x ≡ n = ground (arith, e) in
          let found = subst (λ j. same (f j).key k ≡ true) (sym at) o.0 in
          let rest = entries-same f (updated n v) xs (λ i h. ground (arith, h, d.0, at)) in
          let key_same : (f x).key ≡ (f n).key = ap (λ j. (f j).key) at in rw (e, found) cc
      | inr e ↦
          let other = o.1 x (ground arith) (ground (arith, e)) in
          rw (e, other)
            (ap (λ es. entry (f x) ∷ es)
              (insert-Only n v xs d.1 (ground (arith, m, e))
                (o.0, λ i h ne. o.1 i (ground (arith, h)) ne)))
    ]

  pub entries-append :
      (f : ℕ → Node K T) (n : ℕ) (xs : List ℕ)
      → entries f (xs ++ n ∷ []) ≡ entries f xs ++ entry (f n) ∷ []
  entries-append f n [] = refl
  entries-append f n (x ∷ xs) = ap (λ es. entry (f x) ∷ es) (entries-append f n xs)
