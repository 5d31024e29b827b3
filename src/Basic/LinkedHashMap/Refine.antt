-- ===== src/Basic/LinkedHashMap/Refine.antt =====
-- The map refines an ordered list of entries.
use common_tools.Prelude.{
  ℕ, ◌<◌, ◌≡◌, ◌↔◌, sym, subst, ◌∙◌, Bool, true, none, some, List, length, arith, Bool-cases,
  Option-cases, inl, inr,
}
use common_tools.Basic.Chain.{member}
use common_tools.Basic.LinkedHashMap.{LinkedHashMap, get}
use common_tools.Basic.LinkedHashMap.Rep.{Linked}
use common_tools.Basic.LinkedHashMap.Entries.{
  lookup, entries, Absent, Only, lookup-Absent, lookup-Only,
}

module _ {K T : Type 0} (same : K → K → Bool)
    (same_iff : (a b : K) → (same a b ≡ true) ↔ (a ≡ b)) where
  -- The nodes of the list `xs` are those that the map finds.
  pub record IsMap (m : LinkedHashMap K T) (xs : List ℕ) : Type 0 where
    pub linked : Linked m xs
    pub count : m.len ≡ length xs
    pub old : (i : ℕ) → member i xs ≡ true → i < m.fresh
    pub found :
        (k : K) (i : ℕ) → m.item_map k ≡ some i → (member i xs ≡ true) × ((m.nodes i).key ≡ k)
    pub mapped : (i : ℕ) → member i xs ≡ true → m.item_map (m.nodes i).key ≡ some i

  -- The map holds these entries in this order.
  abbrev pub Holds : LinkedHashMap K T → List (K × T) → Type 0
  Holds m es = (xs : List ℕ) × IsMap m xs × (entries m.nodes xs ≡ es)

  module _ (k : K) (m : LinkedHashMap K T) (xs : List ℕ) (w : IsMap m xs) where
    pub missing-Absent : m.item_map k ≡ none → Absent same k m.nodes xs
    missing-Absent e i h = elim (Bool-cases (same (m.nodes i).key k)) [
      | inl s ↦
          let at : m.item_map k ≡ some i =
            subst (λ j. m.item_map j ≡ some i) ((same_iff (m.nodes i).key k).0 s) (w.mapped i h) in
          absurd cc
      | inr s ↦ s
    ]

    pub found-Only : (n : ℕ) → m.item_map k ≡ some n → Only same k m.nodes n xs
    found-Only n e = (
      (same_iff (m.nodes n).key k).1 (w.found k n e).1,
      λ i h ne. elim (Bool-cases (same (m.nodes i).key k)) [
        | inl s ↦
            let at : m.item_map k ≡ some i =
              subst (λ j. m.item_map j ≡ some i) ((same_iff (m.nodes i).key k).0 s)
                (w.mapped i h) in
            let both : some n ≡ some i = sym e ∙ at in absurd (ground (arith, both, ne))
        | inr s ↦ s
      ],
    )

  -- `Get` finds the value that the entries have for the key.
  pub get_refines :
      (k : K) (m : LinkedHashMap K T) (es : List (K × T))
      → Holds m es
      → get same k m ≡ lookup same k es
  unfolding get
  get_refines k m es (xs, w, e) =
      subst (λ es. get same k m ≡ lookup same k es) e
        (elim (Option-cases (m.item_map k)) [
          | inl miss ↦
              rw (miss, get) (sym (lookup-Absent same k m.nodes xs (missing-Absent k m xs w miss)))
          | inr (n, hit) ↦
              rw (hit, get)
                (sym
                  (lookup-Only same k m.nodes n xs (w.found k n hit).0 (found-Only k m xs w n hit)))
        ])
