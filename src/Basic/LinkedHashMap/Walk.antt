-- ===== src/Basic/LinkedHashMap/Walk.antt =====
-- `Keys` and `Values` go through the whole list.
use common_tools.Prelude.{
  ℕ, zero, suc, ◌+◌, ◌<◌, ◌≡◌, ◌↔◌, refl, ap, ◌∙◌, Bool, true, List, [], ◌∷◌, length, arith, map,
}
use common_tools.Basic.Chain.{member, Distinct, first, succ_of}
use common_tools.Basic.LinkedHashMap.{Node, LinkedHashMap, walk, keys, values}
use common_tools.Basic.LinkedHashMap.Entries.{entry, entries}
use common_tools.Basic.LinkedHashMap.Refine.{Holds}

module _ {K T : Type 0} where
  -- Each node's link leads to the next.
  Chained : (ℕ → Node K T) → List ℕ → Type 0
  Chained f [] = Unit
  Chained f (x ∷ xs) = ((f x).next ≡ first xs) × Chained f xs

  next-Chained :
      (f : ℕ → Node K T) (xs : List ℕ)
      → Distinct xs
      → ((i : ℕ) → member i xs ≡ true → (f i).next ≡ succ_of i xs)
      → Chained f xs
  unfolding Chained
  next-Chained f [] d h = tt
  next-Chained f (x ∷ xs) d h =
      (ground (arith, h x), next-Chained f xs d.1 (λ i m. ground (arith, h i, m, d.0)))

  walk-Chained :
      (k : ℕ) (m : LinkedHashMap K T) (xs : List ℕ)
      → length xs < k
      → Chained m.nodes xs
      → walk k (first xs) m ≡ map m.nodes xs
  unfolding walk Chained
  walk-Chained zero m xs h c = absurd (omega arith)
  walk-Chained (suc k) m [] h c = refl
  walk-Chained (suc k) m (x ∷ xs) h c =
      ap (λ ns. m.nodes x ∷ ns) (ap (λ p. walk k p m) c.0 ∙ walk-Chained k m xs (omega arith) c.1)

  map-entries :
      {A : Type 0} (g : K × T → A) (f : ℕ → Node K T) (xs : List ℕ)
      → map (λ n. g (entry n)) (map f xs) ≡ map g (entries f xs)
  map-entries g f [] = refl
  map-entries g f (x ∷ xs) = ap (λ ys. g (entry (f x)) ∷ ys) (map-entries g f xs)

  module _ (same : K → K → Bool) (same_iff : (a b : K) → (same a b ≡ true) ↔ (a ≡ b)) where
    -- `Keys` and `Values` give the keys and the values of the entries, in order; their loops end.
    pub keys-values :
        (m : LinkedHashMap K T) (es : List (K × T))
        → Holds same same_iff m es
        → (keys m ≡ map (λ e. e.0) es) × (values m ≡ map (λ e. e.1) es)
    unfolding keys values
    keys-values m es (xs, w, e) =
        let all : walk (m.len + 1) m.head m ≡ map m.nodes xs =
          ap (λ p. walk (m.len + 1) p m) w.linked.head
          ∙ walk-Chained (m.len + 1) m xs (omega (arith, w.count))
              (next-Chained m.nodes xs w.linked.distinct w.linked.next) in
        (
          ap (map (λ (n : Node K T). n.key)) all
              ∙ map-entries (λ x. x.0) m.nodes xs
              ∙ ap (map (λ (x : K × T). x.0)) e,
          ap (map (λ (n : Node K T). n.value)) all
              ∙ map-entries (λ x. x.1) m.nodes xs
              ∙ ap (map (λ (x : K × T). x.1)) e,
        )
