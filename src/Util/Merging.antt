-- ===== src/Util/Merging.antt =====
-- Which value `MergeStringMap` of pkg/util/util.go keeps.
use vpc_route_controller.Common.{
  String, Option, none, some, List, [], ◌∷◌, ◌≡◌, Dict, insert, lookup, lookup-insert, eq_iff,
  arith,
}
use vpc_route_controller.Util.Maps.{merge_in, merge_from, merge_string_map}

-- The value of the key in the first map that has it.
abbrev pub first_value : String → List (Dict String) → Option String
first_value k [] = none
first_value k (m ∷ maps) = elim (lookup k m) [ some v ↦ some v | none ↦ first_value k maps ]

abbrev or_else : Option String → Option String → Option String
or_else (some v) o = some v
or_else none o = o

merge_in-lookup :
    (k : String) (m ret : Dict String)
    → lookup k (merge_in m ret) ≡ or_else (lookup k ret) (lookup k m)
unfolding merge_in lookup
merge_in-lookup k [] ret = ground arith
merge_in-lookup k ((own, v) ∷ m) ret = ground (
  arith,
  merge_in-lookup k m ret,
  merge_in-lookup k m (insert own v ret),
  lookup-insert own k v ret,
  eq_iff own k,
)

merge_from-lookup :
    (k : String) (maps : List (Dict String)) (ret : Dict String)
    → lookup k (merge_from maps ret) ≡ or_else (lookup k ret) (first_value k maps)
unfolding merge_from
merge_from-lookup k [] ret = ground arith
merge_from-lookup k (m ∷ maps) ret =
    ground (arith, merge_from-lookup k maps (merge_in m ret), merge_in-lookup k m ret)

-- Under every key, MergeStringMap has the value of the first map that has the key, and nothing where none
-- has it.
pub merge_string_map-lookup :
    (k : String) (maps : List (Dict String)) → lookup k (merge_string_map maps) ≡ first_value k maps
unfolding merge_string_map lookup
merge_string_map-lookup k maps = merge_from-lookup k maps []
