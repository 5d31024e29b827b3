-- ===== src/Basic/LinkedHashMap/Tests.antt =====
-- A map from numbers to numbers.
use common_tools.Prelude.{ℕ, ◌≡◌, refl, Bool, none, List, [], ◌∷◌, ◌==◌, ==_iff}
use common_tools.Basic.LinkedHashMap.{
  Node, LinkedHashMap, new_linked_hash_map, put, remove_last, move_to_head, keys, values,
}
use common_tools.Basic.LinkedHashMap.Refine.{Holds}
use common_tools.Basic.LinkedHashMap.Ends.{new-Holds, put_refines}

abbrev same : ℕ → ℕ → Bool
same a b = a == b

abbrev blank : ℕ → Node ℕ ℕ
blank i = record { key = 0; value = 0; prev = none; next = none }

abbrev empty_map : LinkedHashMap ℕ ℕ
empty_map = new_linked_hash_map blank 0

abbrev three : LinkedHashMap ℕ ℕ
three = put same 3 30 (put same 2 20 (put same 1 10 empty_map))

abbrev entries_of_three : List (ℕ × ℕ)
entries_of_three = (1, 10) ∷ (2, 20) ∷ (3, 30) ∷ []

three-Holds : Holds same ==_iff three entries_of_three
three-Holds =
    put_refines same ==_iff 3 30 (put same 2 20 (put same 1 10 empty_map)) ((1, 10) ∷ (2, 20) ∷ [])
      (put_refines same ==_iff 2 20 (put same 1 10 empty_map) ((1, 10) ∷ [])
        (put_refines same ==_iff 1 10 empty_map [] (new-Holds same ==_iff blank 0)))

in_order : keys three ≡ 1 ∷ 2 ∷ 3 ∷ []
unfolding keys put
in_order = refl

moved : keys (move_to_head same 2 three) ≡ 2 ∷ 1 ∷ 3 ∷ []
unfolding keys put move_to_head
moved = refl

last_removed : values (remove_last same three).0 ≡ 10 ∷ 20 ∷ []
unfolding values put remove_last
last_removed = refl
