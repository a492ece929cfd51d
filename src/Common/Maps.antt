-- ===== src/Common/Maps.antt =====
-- Go maps with string keys, as association lists. A nil map reads as the empty one.
use Prim.Native.String.{String}
use mathlib.Core.Path.{◌≡◌, refl}
use mathlib.Core.Bool.{Bool}
use mathlib.Core.Option.{Option, none, some}
use mathlib.Core.List.{List, [], ◌∷◌}
use native.Mathlib.Omega.{arith}
use text.Mathlib.Text.{◌==◌}
use text.Mathlib.TextEquality.{eq_iff}
use vpc_route_controller.Common.Tests.{if◌then◌else◌, is_some}

abbrev pub Dict {ℓ} : Type ℓ → Type ℓ
Dict V = List (String × V)

module _ {ℓ} {V : Type ℓ} where
  -- `v, ok := m[key]`
  unfoldable pub lookup : String → Dict V → Option V
  lookup key [] = none
  lookup key ((own, value) ∷ rest) = if own == key then some value else lookup key rest

  abbrev pub has_key : String → Dict V → Bool
  has_key key m = is_some (lookup key m)

  -- `m[key] = new`
  unfoldable pub insert : String → V → Dict V → Dict V
  insert key new [] = (key, new) ∷ []
  insert key new ((own, value) ∷ rest) =
      if own == key then (key, new) ∷ rest else (own, value) ∷ insert key new rest

  -- `delete(m, key)`
  unfoldable pub remove : String → Dict V → Dict V
  remove key [] = []
  remove key ((own, value) ∷ rest) =
      let kept = remove key rest in if own == key then kept else (own, value) ∷ kept

  pub lookup-insert :
      (key other : String) (new : V) (m : Dict V)
      → lookup other (insert key new m) ≡ (if key == other then some new else lookup other m)
  unfolding lookup insert
  lookup-insert key other new [] = refl
  lookup-insert key other new ((own, value) ∷ rest) =
      ground (
        arith,
        lookup-insert key other new rest,
        eq_iff own key,
        eq_iff own other,
        eq_iff key other,
      )

  pub lookup-remove :
      (key other : String) (m : Dict V)
      → lookup other (remove key m) ≡ (if key == other then none else lookup other m)
  unfolding lookup remove
  lookup-remove key other [] = ground arith
  lookup-remove key other ((own, value) ∷ rest) =
      ground
        (arith, lookup-remove key other rest, eq_iff own key, eq_iff own other, eq_iff key other)
