-- ===== src/Util/Sorting.antt =====
-- `Encode` of pkg/util/util.go does not depend on the order in which a map is listed.
use Prim.Native.Char.{code}
use mathlib.Core.List.{Perm}
use mathlib.Core.List.Perm
use text.Mathlib.TextEquality.{Char-path, IsScalar-prop}
use vpc_route_controller.Common.{
  String, true, false, List, [], ◌∷◌, ◌≡◌, refl, ap, Dict, lookup, map, Bool-cases, inl, inr, arith,
}
use vpc_route_controller.Util.Form.{text_le, sort_in, sort, key_of, write_pairs, encode}

text_le_total : (s t : String) → text_le s t ≡ false → text_le t s ≡ true
unfolding text_le
text_le_total String.[] t h = ground (arith, h)
text_le_total (String.◌∷◌ c s) String.[] h = refl
text_le_total (String.◌∷◌ c s) (String.◌∷◌ d t) h = ground (arith, h, text_le_total s t)

text_le_trans : (s t u : String) → text_le s t ≡ true → text_le t u ≡ true → text_le s u ≡ true
unfolding text_le
text_le_trans String.[] t u h k = refl
text_le_trans (String.◌∷◌ c s) String.[] u h k = absurd (ground (arith, h))
text_le_trans (String.◌∷◌ c s) (String.◌∷◌ d t) String.[] h k = absurd (ground (arith, k))
text_le_trans (String.◌∷◌ c s) (String.◌∷◌ d t) (String.◌∷◌ e u) h k =
    ground (arith, h, k, text_le_trans s t u)

text_le_antisym : (s t : String) → text_le s t ≡ true → text_le t s ≡ true → s ≡ t
unfolding text_le
text_le_antisym String.[] String.[] h k = refl
text_le_antisym String.[] (String.◌∷◌ d t) h k = absurd (ground (arith, k))
text_le_antisym (String.◌∷◌ c s) String.[] h k = absurd (ground (arith, h))
text_le_antisym (String.◌∷◌ c s) (String.◌∷◌ d t) h k =
    let heads : code c ≡ code d = ground (arith, h, k) in
    let tails : s ≡ t = text_le_antisym s t (ground (arith, h, k)) (ground (arith, h, k)) in
    rw (Char-path c d heads) (ap (String.◌∷◌ d) tails)

sort_in_comm :
    (a b : String) (xs : List String) → sort_in a (sort_in b xs) ≡ sort_in b (sort_in a xs)
unfolding sort_in
sort_in_comm a b [] = elim (Bool-cases (text_le a b)) [
  | inl ab ↦ elim (Bool-cases (text_le b a)) [
    | inl ba ↦ rw (text_le_antisym a b ab ba) refl
    | inr nba ↦ rw (ab, nba) refl
  ]
  | inr nab ↦ rw (nab, text_le_total a b nab) refl
]
sort_in_comm a b (x ∷ xs) = ground (
  arith,
  sort_in_comm a b xs,
  text_le_total a b,
  text_le_total a x,
  text_le_total b x,
  text_le_trans a x b,
  text_le_trans b x a,
  text_le_trans a b x,
  text_le_trans b a x,
  text_le_antisym a b,
)

sort-perm : {xs ys : List String} → Perm xs ys → sort xs ≡ sort ys
unfolding sort
sort-perm p = Perm.foldr-eq {B = List String} (hlevel (IsScalar-prop)) sort_in sort_in_comm p []

write_pairs_agree :
    (escape : String → String) (v v' : Dict String) (ks : List String) (buf : String)
    → ((k : String) → lookup k v ≡ lookup k v')
    → write_pairs escape v ks buf ≡ write_pairs escape v' ks buf
unfolding write_pairs
write_pairs_agree escape v v' [] buf agree = refl
write_pairs_agree escape v v' (k ∷ ks) buf agree =
    rw (agree k) (write_pairs_agree escape v v' ks _ agree)

-- Two listings of a map, with the same keys in any order and the same value under each, give the
-- same text: Encode does not depend on the order in which range runs.
pub encode-perm :
    (escape : String → String) (v v' : Dict String)
    → Perm (map key_of v) (map key_of v')
    → ((k : String) → lookup k v ≡ lookup k v')
    → encode escape v ≡ encode escape v'
unfolding encode
encode-perm escape v v' same_keys agree =
    rw (sort-perm same_keys, encode) (write_pairs_agree escape v v' (sort (map key_of v')) "" agree)
