-- ===== src/Common/Effect.antt =====
-- Go functions with effects: a state is passed along, an error is a value of the result, and a
-- run-time panic unwinds every caller.
use Prim.Native.Nat.{ℕ}
use Prim.Native.String.{String}
use mathlib.Core.Path.{◌≡◌, refl}
use mathlib.Core.Logic.{◌⊎◌, inl, inr}
use mathlib.Core.Bool.{Bool, true, false}
use mathlib.Core.List.{[], ◌∷◌}
use native.Mathlib.Omega.{arith}
use vpc_route_controller.Common.Text.{concat, decimal}

-- `metav1.StatusReason` of an API-server error, as far as the source tells reasons apart.
pub data Reason : Type 0 where
  not_found conflict other_reason : Reason

-- The dynamic types of the `error` values that the source makes or tells apart. `plain` is
-- `errors.New` and `fmt.Errorf`; `kop` is `util.Error`; `url_error`, `op_error`, `dns_error` are
-- those of package net, with their own texts.
pub data Error : Type 0 where
  plain : String → Error
  status_error : Reason → String → Error
  kop : ℕ → String → Error
  timeout_error : String → Error
  eof : Error
  unexpected_eof : Error
  dns_error : String → Error
  op_error : String → String → Error
  url_error : String → String → Error → Error

-- `err.Error()`
unfoldable pub message : Error → String
message (plain s) = s
message (status_error r s) = s
message (kop c s) = concat ("Kop Error: Status Code: " ∷ decimal c ∷ " Message: " ∷ s ∷ [])
message (timeout_error s) = s
message eof = "EOF"
message unexpected_eof = "unexpected EOF"
message (dns_error s) = s
message (op_error o s) = s
message (url_error o u e) = concat (o ∷ " \"" ∷ u ∷ "\": " ∷ message e ∷ [])

-- `errors.IsNotFound`, `errors.IsConflict`
abbrev pub is_not_found : Error → Bool
is_not_found (status_error not_found s) = true
is_not_found _ = false

abbrev pub is_conflict : Error → Bool
is_conflict (status_error conflict s) = true
is_conflict _ = false

-- `(T, error)`
pub data Result {ℓ} (A : Type ℓ) : Type ℓ where
  ok : A → Result A
  err : Error → Result A

-- How a call ends: it returns, or it panics.
pub data Outcome {ℓ} (A : Type ℓ) : Type ℓ where
  done : A → Outcome A
  panicked : Outcome A

abbrev pub Action : Type 0 → Type 0 → Type 0
Action S A = S → Outcome A × S

module _ {S A : Type 0} where
  abbrev pub pure : A → Action S A
  pure a s = (done a, s)

  abbrev pub panic : Action S A
  panic s = (panicked, s)

  abbrev pub gets : (S → A) → Action S A
  gets f s = (done (f s), s)

module _ {S : Type 0} where
  abbrev pub modify : (S → S) → Action S (Unit {0})
  modify f s = (done tt, f s)

module _ {S A B : Type 0} where
  abbrev pub continue : Outcome A → (A → Action S B) → Action S B
  continue (done a) f s = f a s
  continue panicked f s = (panicked, s)

  infixl 5 ◌>>=◌ ◌>>◌
  abbrev pub ◌>>=◌ : Action S A → (A → Action S B) → Action S B
  ◌>>=◌ m f s = let (r, s') = m s in continue r f s'

  abbrev pub ◌>>◌ : Action S A → Action S B → Action S B
  m >> k = m >>= λ _. k

-- `if b { ... }`
module _ {S : Type 0} where
  abbrev pub when : Bool → Action S (Unit {0}) → Action S (Unit {0})
  when true m s = m s
  when false m s = (done tt, s)

-- A call that returns in every state.
abbrev pub Returns : {S A : Type 0} → Action S A → Type 0
Returns {S} {A} m = (s : S) → (a : A) × (s' : S) × (m s ≡ (done a, s'))

pub Result-cases {ℓ} :
    {A : Type ℓ} (r : Result A) → ((a : A) × (r ≡ ok a)) ⊎ ((e : Error) × (r ≡ err e))
Result-cases (ok a) = inl (a, refl)
Result-cases (err e) = inr (e, refl)

-- What a sequence of two calls that returns has done.
pub bind-done :
    {S A B : Type 0} (m : Action S A) (f : A → Action S B) (s v : S) (b : B)
    → (m >>= f) s ≡ (done b, v)
    → (a : A) × (u : S) × (m s ≡ (done a, u)) × (f a u ≡ (done b, v))
bind-done {S} {A} m f s v b h = from (m s) refl h
  where
    from :
        (r : Outcome A × S)
        → m s ≡ r
        → continue r.0 f r.1 ≡ (done b, v)
        → (a : A) × (u : S) × (m s ≡ (done a, u)) × (f a u ≡ (done b, v))
    from (done a, u) e h = (a, u, e, h)
    from (panicked, u) e h = absurd (ground (arith, h))
