-- ===== src/Util/Form.antt =====
-- `Encode` of pkg/util/util.go, the text of a form. `sort.Strings` compares the codes of the characters, which
-- order texts as their UTF-8 bytes do; `url.QueryEscape` is a parameter.
use Prim.Native.Char.{code}
use mathlib.Core.List.{foldr}
use vpc_route_controller.Common.{
  String, Bool, true, false, Option, none, some, List, [], ◌∷◌, ◌==◌, if◌then◌else◌, ltb, nat_eq,
  concat, Dict, lookup, map,
}

unfoldable pub text_le : String → String → Bool
text_le String.[] t = true
text_le (String.◌∷◌ c s) String.[] = false
text_le (String.◌∷◌ c s) (String.◌∷◌ d t) =
    let rest = text_le s t in
    if ltb (code c) (code d) then true else if nat_eq (code c) (code d) then rest else false

unfoldable pub sort_in : String → List String → List String
sort_in x [] = x ∷ []
sort_in x (y ∷ ys) = let later = sort_in x ys in if text_le x y then x ∷ y ∷ ys else y ∷ later

-- `sort.Strings`
unfoldable pub sort : List String → List String
unfolding sort_in text_le
sort xs = foldr sort_in [] xs

abbrev pub key_of : String × String → String
key_of (k, v) = k

abbrev pub value_or_empty : Option String → String
value_or_empty none = ""
value_or_empty (some v) = v

-- The loop over the sorted keys, on what is in the buffer.
unfoldable pub write_pairs : (String → String) → Dict String → List String → String → String
write_pairs escape v [] buf = buf
write_pairs escape v (k ∷ ks) buf =
    let pair = concat (escape k ∷ "=" ∷ escape (value_or_empty (lookup k v)) ∷ []) in
    write_pairs escape v ks (if buf == "" then pair else concat (buf ∷ "&" ∷ pair ∷ []))

-- `Encode`, at a map that is not nil. A map is listed in any order.
unfoldable pub encode : (String → String) → Dict String → String
unfolding write_pairs sort
encode escape v = write_pairs escape v (sort (map key_of v)) ""
