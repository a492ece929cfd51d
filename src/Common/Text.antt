-- ===== src/Common/Text.antt =====
-- Go strings as native texts: concatenation for `fmt.Sprintf`, `strings.Contains`, decimals.
use Prim.Native.Nat.{ℕ, zero, suc, ◌/◌, ◌%◌, compare, Ordering}
use Prim.Native.String.{String, ◌++◌}
use mathlib.Core.Path.{◌≡◌, refl, sym, subst, ◌∙◌}
use mathlib.Core.Logic.{◌⊎◌, inl, inr}
use mathlib.Core.Bool.{Bool, true, false, ◌||◌}
use mathlib.Core.List.{List, [], ◌∷◌}
use native.Mathlib.Omega.{arith}
use text.Mathlib.Text.{starts_with}
use text.Mathlib.TextBridge.{IsPrefix}
use text.Mathlib.TextEquality.{starts_with_iff}
use text.Mathlib.TextPositions.{starts_with_of_prefix}
use text.Mathlib.TextLemmas.{append_assoc, nil-append, cons-append}

-- The pieces of a formatted message, in order.
abbrev pub concat : List String → String
concat [] = ""
concat (s ∷ ss) = s ++ concat ss

-- `strings.Contains(s, t)`
unfoldable pub contains : String → String → Bool
contains String.[] t = starts_with String.[] t
contains (String.◌∷◌ c s) t = starts_with (String.◌∷◌ c s) t || contains s t

or_true_left : (a b : Bool) → a ≡ true → (a || b) ≡ true
or_true_left a b h = ground arith

or_true_right : (a b : Bool) → b ≡ true → (a || b) ≡ true
or_true_right a b h = ground arith

or_cases : (a b : Bool) → (a || b) ≡ true → (a ≡ true) ⊎ (b ≡ true)
or_cases true b h = inl refl
or_cases false b h = inr h

contains_of_prefix : (s t : String) → IsPrefix t s → contains s t ≡ true
unfolding contains
contains_of_prefix String.[] t h = starts_with_of_prefix t String.[] h
contains_of_prefix (String.◌∷◌ c s) t h =
    or_true_left _ (contains s t) (starts_with_of_prefix t (String.◌∷◌ c s) h)

prefix-append : (t s u : String) → IsPrefix t s → IsPrefix t (s ++ u)
prefix-append t s u (r, e) =
    (r ++ u, sym (append_assoc t r u) ∙ subst (λ v. (t ++ r) ++ u ≡ v ++ u) e refl)

-- What a text contains, a longer one contains.
pub contains-append_left : (a s t : String) → contains s t ≡ true → contains (a ++ s) t ≡ true
unfolding contains
contains-append_left String.[] s t h = rw nil-append h
contains-append_left (String.◌∷◌ c a) s t h =
    rw cons-append (or_true_right _ _ (contains-append_left a s t h))

pub contains-append_right : (s u t : String) → contains s t ≡ true → contains (s ++ u) t ≡ true
unfolding contains
contains-append_right String.[] u t h =
    contains_of_prefix (String.[] ++ u) t
      (prefix-append t String.[] u ((starts_with_iff String.[] t).0 h))
contains-append_right (String.◌∷◌ c s) u t h = elim (or_cases _ _ h) [
  | inl p ↦
      contains_of_prefix (String.◌∷◌ c s ++ u) t
        (prefix-append t (String.◌∷◌ c s) u ((starts_with_iff (String.◌∷◌ c s) t).0 p))
  | inr p ↦ rw cons-append (or_true_right _ _ (contains-append_right s u t p))
]

-- A piece in the middle of a message keeps what it contains.
pub contains_middle : (a s b t : String) → contains s t ≡ true → contains (a ++ s ++ b) t ≡ true
contains_middle a s b t h = contains-append_left a (s ++ b) t (contains-append_right s b t h)

unfoldable pub digit : ℕ → String
digit zero = "0"
digit (suc zero) = "1"
digit (suc (suc zero)) = "2"
digit (suc (suc (suc zero))) = "3"
digit (suc (suc (suc (suc zero)))) = "4"
digit (suc (suc (suc (suc (suc zero))))) = "5"
digit (suc (suc (suc (suc (suc (suc zero)))))) = "6"
digit (suc (suc (suc (suc (suc (suc (suc zero))))))) = "7"
digit (suc (suc (suc (suc (suc (suc (suc (suc zero)))))))) = "8"
digit _ = "9"

unfoldable pub decimal_from : ℕ → ℕ → String → String
unfolding digit
decimal_from zero n acc = acc
decimal_from (suc f) n acc =
    let more = decimal_from f (n / 10) (digit (n % 10) ++ acc) in
    elim (compare n 10) [ Ordering.lt ↦ digit n ++ acc | _ ↦ more ]

-- `%d` of a natural number.
unfoldable pub decimal : ℕ → String
unfolding decimal_from
decimal n = decimal_from (suc n) n ""

decimal_400 : decimal 400 ≡ "400"
unfolding decimal
decimal_400 = refl

contains_inner : contains "Error: same with a route. " "same with a route" ≡ true
unfolding contains
contains_inner = refl
