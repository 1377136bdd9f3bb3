-- ===== src/Tests/MapTest.antt =====
-- util/map.c on a map of two pairs of numbers.
use vmsim.Prelude.{
  ℕ, ◌≡◌, refl, Bool, not, none, some, List, [], ◌∷◌, ◌==◌, ==_refl, arith, ◌⊎◌, if◌then◌else◌,
}
use vmsim.Run.{ok}
use vmsim.Types.{success, not_found}
use vmsim.Map.{Map, map_set, map_get, map_remove}
use vmsim.Map.Assoc.{IsEquality, find, insert, delete, holds_key}
use vmsim.Map.Refine.{IsMap, got, map_get_lem, map_set_lem, map_remove_lem}

abbrev same_number : ℕ → ℕ → Bool
same_number a b = a == b

same_number-IsEquality : IsEquality same_number
same_number-IsEquality = record {
  refl_law = λ a. ==_refl a;
  symm_law = λ a b. ground arith;
  trans_law = λ a b c p q. ground arith;
}

abbrev two_pairs : List (ℕ × ℕ)
two_pairs = (1, 10) ∷ (2, 20) ∷ []

abbrev two_keys : Map ℕ ℕ
two_keys = record { keys = 1 ∷ 2 ∷ []; values = 10 ∷ 20 ∷ []; comp = λ a b. not (a == b); size = 2 }

two_keys-IsMap : IsMap same_number two_keys two_pairs
unfolding holds_key
two_keys-IsMap = record {
  keys = refl;
  values = refl;
  size = refl;
  agree = λ a b. refl;
  differ = (refl, (refl, tt));
}

map_get_lem_example : map_get two_keys 2 (some 0) ≡ ok (got (some 0) (find same_number two_pairs 2))
map_get_lem_example = map_get_lem same_number-IsEquality two_keys-IsMap 2 (some 0)

map_set_lem_example :
    (m' : Map ℕ ℕ) × (map_set two_keys 2 30 ≡ ok (success, m'))
    × IsMap same_number m' (insert same_number two_pairs 2 30)
    × ((k : ℕ)
        → find same_number (insert same_number two_pairs 2 30) k
          ≡ (if same_number 2 k then some 30 else find same_number two_pairs k))
map_set_lem_example = map_set_lem same_number-IsEquality two_keys-IsMap 2 30

map_remove_lem_example :
    ((find same_number two_pairs 1 ≡ none) × (map_remove two_keys 1 ≡ ok (not_found, two_keys)))
    ⊎ ((u : ℕ) × (m' : Map ℕ ℕ) × (find same_number two_pairs 1 ≡ some u)
        × (map_remove two_keys 1 ≡ ok (success, m'))
        × IsMap same_number m' (delete same_number two_pairs 1)
        × ((k : ℕ)
            → find same_number (delete same_number two_pairs 1) k
              ≡ (if same_number 1 k then none else find same_number two_pairs k)))
map_remove_lem_example = map_remove_lem same_number-IsEquality two_keys-IsMap 1
