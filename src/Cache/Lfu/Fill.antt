-- ===== src/Cache/Lfu/Fill.antt =====
-- An entry is filled in, or read, and its use counted.
use common_tools.Prelude.{
  ℕ, ◌+◌, ◌<◌, ◌≡◌, ◌↔◌, refl, sym, ap, ◌∙◌, Bool, true, false, Option, none, some, arith,
  if◌then◌else◌, Bool-cases, Option-cases, inl, inr,
}
use common_tools.Prelude.Run.{Returns, returns, Returns-bind, Returns-weaken, ok}
use common_tools.Basic.LinkedHashMap.{Node}
use common_tools.Cache.Lfu.{LfuCache, set_entry, fill, get}
use common_tools.Cache.Lfu.Counts.{Buckets}
use common_tools.Cache.Lfu.Left.{Least, Low}
use common_tools.Cache.Lfu.Evict.{IsLfu, Increased, increase-Increased}

module _ {K : Type 0} (same : K → K → Bool)
    (same_iff : (a b : K) → (same a b ≡ true) ↔ (a ≡ b)) where
  mine : (k : K) → same k k ≡ true
  mine k = (same_iff k k).1 refl

module _ {K V : Type 0} (same : K → K → Bool)
    (same_iff : (a b : K) → (same a b ≡ true) ↔ (a ≡ b)) where
  -- A state in which `fill` may run.
  pub record Ready (k : K) (c : LfuCache K V) : Type 0 where
    pub buckets : Buckets same same_iff c.freq_map c.freq
    pub least : Least same same_iff c
    pub low : Low same same_iff k c
    pub missing : (j : K) → c.item_map j ≡ none → c.freq j ≡ 0
    pub present : (j : K) (v : V) → c.item_map j ≡ some v → 0 < c.freq j

  abbrev pub new_items : K → LfuCache K V → ℕ
  new_items k c = elim (c.item_map k) [ none ↦ c.items + 1 | some _ ↦ c.items ]

  pub record Filled (k : K) (v : V) (c d : LfuCache K V) : Type 0 where
    pub valid : IsLfu same same_iff d
    pub found : d.item_map k ≡ some v
    pub count : d.freq k ≡ c.freq k + 1
    pub other_items : (j : K) → same j k ≡ false → d.item_map j ≡ c.item_map j
    pub other_counts : (j : K) → same j k ≡ false → d.freq j ≡ c.freq j
    pub items : d.items ≡ new_items k c
    pub capacity : d.capacity ≡ c.capacity

  -- A key that has just been used.
  used_now : (k : K) (c d : LfuCache K V) → Increased same same_iff k c d → 0 < d.freq k
  used_now k c d i = ground (arith, i.freq k, mine same same_iff k)

  Increased-Filled :
      (k : K) (v : V) (c d : LfuCache K V)
      → Ready k c
      → Increased same same_iff k
          (record c { item_map = set_entry same k (some v) c.item_map; items = new_items k c })
          d
      → Filled k v c d
  Increased-Filled k v c d r i =
      let items : (j : K) → d.item_map j ≡ (if same j k then some v else c.item_map j) =
        λ j. ap (λ f. f j) i.item_map in
      record {
        valid = record {
          buckets = i.buckets;
          least = i.least;
          lowest = λ j pos. i.lowest;
          filled = λ pos. (k, ground (arith, i.freq k, mine same same_iff k));
          missing = λ j e. elim (Bool-cases (same j k)) [
            | inl it ↦ absurd (ground (arith, items j, it, e))
            | inr apart ↦ ground (arith, i.freq j, apart, r.missing j, items j, e)
          ];
          present = λ j x e. elim (Bool-cases (same j k)) [
            | inl it ↦ ground (arith, i.freq j, it)
            | inr apart ↦ ground (arith, i.freq j, apart, r.present j x, items j, e)
          ];
        };
        found = ground (arith, items k, mine same same_iff k);
        count = ground (arith, i.freq k, mine same same_iff k);
        other_items = λ j apart. ground (arith, items j, apart);
        other_counts = λ j apart. ground (arith, i.freq j, apart);
        items = i.items;
        capacity = i.capacity;
      }

  -- `Get` gave `r`: the value of the key, whose use counts. No entry changes.
  pub record Got (k : K) (c : LfuCache K V) (r : LfuCache K V × Option V) : Type 0 where
    pub value : r.1 ≡ c.item_map k
    pub valid : IsLfu same same_iff r.0
    pub item_map : r.0.item_map ≡ c.item_map
    pub capacity : r.0.capacity ≡ c.capacity
    pub count : (v : V) → r.1 ≡ some v → r.0.freq k ≡ c.freq k + 1
    pub other_counts : (j : K) → same j k ≡ false → r.0.freq j ≡ c.freq j

  module _ (heap : ℕ → Node K Unit) where
    pub fill-Filled :
        (k : K) (v : V) (c : LfuCache K V)
        → Ready k c
        → Returns (Filled k v c) (fill same heap k v c)
    unfolding fill
    fill-Filled k v c r =
        Returns-weaken
          (increase-Increased same same_iff heap k
            (record c { item_map = set_entry same k (some v) c.item_map; items = new_items k c })
            r.buckets r.least r.low)
          (λ d i. Increased-Filled k v c d r i)

    Increased-Got :
        (k : K) (v : V) (c d : LfuCache K V)
        → IsLfu same same_iff c
        → c.item_map k ≡ some v
        → Increased same same_iff k c d
        → Got k c (d, some v)
    Increased-Got k v c d w there i =
        let items : (j : K) → d.item_map j ≡ c.item_map j = λ j. ap (λ f. f j) i.item_map in
        record {
          value = sym there;
          valid = record {
            buckets = i.buckets;
            least = i.least;
            lowest = λ j pos. i.lowest;
            filled = λ pos. (k, used_now k c d i);
            missing = λ j e. elim (Bool-cases (same j k)) [
              | inl it ↦
                  let at : c.item_map j ≡ some v = ap c.item_map ((same_iff j k).0 it) ∙ there in
                  absurd (ground (arith, items j, e, at))
              | inr apart ↦ ground (arith, i.freq j, apart, w.missing j, items j, e)
            ];
            present = λ j x e. elim (Bool-cases (same j k)) [
              | inl it ↦ ground (arith, i.freq j, it)
              | inr apart ↦ ground (arith, i.freq j, apart, w.present j x, items j, e)
            ];
          };
          item_map = i.item_map;
          capacity = i.capacity;
          count = λ x e. ground (arith, i.freq k, mine same same_iff k);
          other_counts = λ j apart. ground (arith, i.freq j, apart);
        }

    -- `Get`, on a cache in order, does not panic. It gives the value of the key, if there is one, and
    -- counts one use of it; the other counts and all the entries stay, and the cache is in order.
    pub get_lem :
        (k : K) (c : LfuCache K V) → IsLfu same same_iff c → Returns (Got k c) (get same heap k c)
    unfolding get
    get_lem k c w = elim (Option-cases (c.item_map k)) [
      | inl miss ↦
          rw (miss, get)
            (returns _ (record {
              value = sym miss;
              valid = w;
              item_map = refl;
              capacity = refl;
              count = λ x e. absurd (ground (arith, e));
              other_counts = λ j apart. refl;
            }))
      | inr (v, hit) ↦
          let used = w.present k v hit in
          rw (hit, get)
            (Returns-bind (λ d. ok (d, some v))
              (increase-Increased same same_iff heap k c w.buckets w.least
                (inr (used, w.lowest k used)))
              (λ d i. returns (d, some v) (Increased-Got k v c d w hit i)))
    ]
