-- ===== src/Basic/LinkedHashMap/Ends.antt =====
-- The operations on the whole map, and on its ends.
use common_tools.Prelude.{
  ℕ, suc, ◌≡◌, ◌↔◌, refl, sym, subst, ap, ◌∙◌, Bool, true, Option, none, some, List, [], ◌∷◌, ◌++◌,
  length, arith, Option-cases, inl, inr,
}
use common_tools.Basic.Chain.{last_from, last_from-some}
use common_tools.Basic.LinkedHashMap.{
  Node, LinkedHashMap, new_linked_hash_map, put, remove, remove_first, remove_last, remove_end,
}
use common_tools.Basic.LinkedHashMap.Entries.{insert, delete, entries}
use common_tools.Basic.LinkedHashMap.Refine.{Holds}
use common_tools.Basic.LinkedHashMap.Move.{remove_refines}
use common_tools.Basic.LinkedHashMap.Put.{
  added-IsMap, added-entries, changed-IsMap, changed-entries,
}

module _ {K T : Type 0} (same : K → K → Bool)
    (same_iff : (a b : K) → (same a b ≡ true) ↔ (a ≡ b)) where
  pub new-Holds :
      (nodes : ℕ → Node K T) (fresh : ℕ) → Holds same same_iff (new_linked_hash_map nodes fresh) []
  new-Holds nodes fresh = (
    [],
    record {
      linked = record {
        distinct = tt;
        head = refl;
        tail = refl;
        prev = λ i h. absurd cc;
        next = λ i h. absurd cc;
      };
      count = refl;
      old = λ i h. absurd cc;
      found = λ k i e. absurd cc;
      mapped = λ i h. absurd cc;
    },
    refl,
  )

  -- `Put` changes the value of a key that the map holds, in its place; any other key goes to the end.
  pub put_refines :
      (k : K) (v : T) (m : LinkedHashMap K T) (es : List (K × T))
      → Holds same same_iff m es
      → Holds same same_iff (put same k v m) (insert same k v es)
  put_refines k v m es (xs, w, e) =
      subst (λ es. Holds same same_iff (put same k v m) (insert same k v es)) e
        (elim (Option-cases (m.item_map k)) [
          | inl miss ↦ (
            xs ++ m.fresh ∷ [],
            added-IsMap same same_iff k v m xs w miss,
            added-entries same same_iff k v m xs w miss,
          )
          | inr (n, hit) ↦ (
            xs,
            changed-IsMap same same_iff k v m xs w n hit,
            changed-entries same same_iff k v m xs w n hit,
          )
        ])

  length-entries : (f : ℕ → Node K T) (xs : List ℕ) → length (entries f xs) ≡ length xs
  length-entries f [] = refl
  length-entries f (x ∷ xs) = ap suc (length-entries f xs)

  -- The number of entries is the size.
  pub size_lem :
      (m : LinkedHashMap K T) (es : List (K × T)) → Holds same same_iff m es → m.len ≡ length es
  size_lem m es (xs, w, e) = w.count ∙ sym (length-entries m.nodes xs) ∙ ap length e

  abbrev pub last_key : List (K × T) → Option K
  last_key [] = none
  last_key ((k, v) ∷ []) = some k
  last_key ((k, v) ∷ e ∷ es) = last_key (e ∷ es)

  abbrev pub first_key : List (K × T) → Option K
  first_key [] = none
  first_key ((k, v) ∷ es) = some k

  abbrev pub without : Option K → List (K × T) → List (K × T)
  without none es = es
  without (some k) es = delete same k es

  pub last_key-entries :
      (f : ℕ → Node K T) (x : ℕ) (xs : List ℕ) (n : ℕ)
      → last_from (some x) xs ≡ some n
      → last_key (entries f (x ∷ xs)) ≡ some (f n).key
  last_key-entries f x [] n e = let at : x ≡ n = ground (arith, e) in ap (λ j. some (f j).key) at
  last_key-entries f x (y ∷ ys) n e = last_key-entries f y ys n e

  remove_first-some :
      (m : LinkedHashMap K T) (n : ℕ)
      → m.head ≡ some n
      → remove_first same m ≡ (remove same (m.nodes n).key m, some (m.nodes n).key)
  unfolding remove_first remove_end
  remove_first-some m n h = ap (λ o. remove_end same o m) h

  remove_last-some :
      (m : LinkedHashMap K T) (n : ℕ)
      → m.tail ≡ some n
      → remove_last same m ≡ (remove same (m.nodes n).key m, some (m.nodes n).key)
  unfolding remove_last remove_end
  remove_last-some m n h = ap (λ o. remove_end same o m) h

  remove_first-none : (m : LinkedHashMap K T) → m.head ≡ none → remove_first same m ≡ (m, none)
  unfolding remove_first remove_end
  remove_first-none m h = ap (λ o. remove_end same o m) h

  remove_last-none : (m : LinkedHashMap K T) → m.tail ≡ none → remove_last same m ≡ (m, none)
  unfolding remove_last remove_end
  remove_last-none m h = ap (λ o. remove_end same o m) h

  -- The entry of the key leaves, and no other.
  abbrev pub Leaves : List (K × T) → Option K → LinkedHashMap K T × Option K → Type 0
  Leaves es k r = (r.1 ≡ k) × Holds same same_iff r.0 (without k es)

  -- `RemoveFirst` returns the first key of the map, whose entry leaves, and no other. An empty map stays empty.
  pub remove_first_refines :
      (m : LinkedHashMap K T) (es : List (K × T))
      → Holds same same_iff m es
      → Leaves es (first_key es) (remove_first same m)
  remove_first_refines m es ([], w, e) =
      subst (λ es. Leaves es (first_key es) (remove_first same m)) e
        (subst (Leaves [] none) (sym (remove_first-none m w.linked.head)) (refl, ([], w, refl)))
  remove_first_refines m es (x ∷ xs, w, e) =
      subst (λ es. Leaves es (first_key es) (remove_first same m)) e
        (subst (Leaves (entries m.nodes (x ∷ xs)) (some (m.nodes x).key))
          (sym (remove_first-some m x w.linked.head))
          (
            refl,
            remove_refines same same_iff (m.nodes x).key m (entries m.nodes (x ∷ xs))
                (x ∷ xs, w, refl),
          ))

  -- `RemoveLast` does so with the last key.
  pub remove_last_refines :
      (m : LinkedHashMap K T) (es : List (K × T))
      → Holds same same_iff m es
      → Leaves es (last_key es) (remove_last same m)
  remove_last_refines m es ([], w, e) =
      subst (λ es. Leaves es (last_key es) (remove_last same m)) e
        (subst (Leaves [] none) (sym (remove_last-none m w.linked.tail)) (refl, ([], w, refl)))
  remove_last_refines m es (x ∷ xs, w, e) =
      subst (λ es. Leaves es (last_key es) (remove_last same m)) e
        (elim (Option-cases (last_from (some x) xs)) [
          | inl lost ↦ absurd (ground (arith, lost, last_from-some x xs))
          | inr (n, at) ↦
              let named = last_key-entries m.nodes x xs n at in
              let step = remove_last-some m n (w.linked.tail ∙ at) in
              let result : Leaves (entries m.nodes (x ∷ xs)) (some (m.nodes n).key)
                  (remove same (m.nodes n).key m, some (m.nodes n).key) =
                (
                  refl,
                  remove_refines same same_iff (m.nodes n).key m (entries m.nodes (x ∷ xs))
                      (x ∷ xs, w, refl),
                ) in
              subst (λ k. Leaves (entries m.nodes (x ∷ xs)) k (remove_last same m)) (sym named)
                (subst (Leaves (entries m.nodes (x ∷ xs)) (some (m.nodes n).key)) (sym step) result)
        ])
