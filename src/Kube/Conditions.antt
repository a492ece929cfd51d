-- ===== src/Kube/Conditions.antt =====
-- What `FindCondition` finds: the condition with the latest heartbeat.
use mathlib.Core.Bool.{false≢true}
use native.Mathlib.Nat.{le_trans}
use vpc_route_controller.Common.{
  ℕ, suc, ◌+◌, ◌≤◌, ◌≡◌, ◌≢◌, refl, sym, ◌∙◌, ◌↔◌, ◌⊎◌, inl, inr, String, Bool, true, false, Option,
  none, some, List, [], ◌∷◌, All, get_elem?, ◌==◌, ◌&&◌, arith, eq_iff, Bool-cases,
}
use vpc_route_controller.Kube.{NodeCondition, newer, find_from, find_condition}

-- No condition of the type has a later heartbeat than `c`.
abbrev pub NoneLater : String → NodeCondition → List NodeCondition → Type 0
NoneLater kind c conds =
    All (λ (d : NodeCondition). d.kind ≡ kind → d.heartbeat ≤ c.heartbeat) conds

-- What the scan found so far, and what it will have found.
abbrev Since :
    String → ℕ → List NodeCondition → Option (ℕ × NodeCondition) → ℕ × NodeCondition → Type 0
Since kind k cs best (i, c) =
    ((best ≡ some (i, c)) ⊎ ((j : ℕ) × (i ≡ k + j) × (get_elem? cs j ≡ some c) × (c.kind ≡ kind)))
    × NoneLater kind c cs
    × ((b : ℕ × NodeCondition) → best ≡ some b → b.1.heartbeat ≤ c.heartbeat)

abbrev takes : String → Option (ℕ × NodeCondition) → NodeCondition → Bool
takes kind best c = c.kind == kind && newer best c

taken_kind :
    (kind : String) (best : Option (ℕ × NodeCondition)) (c : NodeCondition)
    → takes kind best c ≡ true
    → c.kind ≡ kind
taken_kind kind best c t = ground (arith, eq_iff c.kind kind)

taken_later :
    (kind : String) (best : Option (ℕ × NodeCondition)) (c : NodeCondition) (b : ℕ × NodeCondition)
    → takes kind best c ≡ true
    → best ≡ some b
    → b.1.heartbeat ≤ c.heartbeat
taken_later kind none c b t e = cc
taken_later kind (some (j, b')) c (i, b) t e = ground (arith, eq_iff c.kind kind)

passed_later :
    (kind : String) (best : Option (ℕ × NodeCondition)) (c : NodeCondition)
    → takes kind best c ≡ false
    → c.kind ≡ kind
    → (b : ℕ × NodeCondition) × (best ≡ some b) × (c.heartbeat ≤ b.1.heartbeat)
passed_later kind none c t e = absurd (ground (arith, eq_iff c.kind kind))
passed_later kind (some (j, b)) c t e = ((j, b), refl, ground (arith, eq_iff c.kind kind))

Since-taken :
    (kind : String) (k : ℕ) (c : NodeCondition) (cs : List NodeCondition)
    (best : Option (ℕ × NodeCondition)) (r : ℕ × NodeCondition)
    → takes kind best c ≡ true
    → Since kind (suc k) cs (some (k, c)) r
    → Since kind k (c ∷ cs) best r
Since-taken kind k c cs best (i, r) t (inl e, later, above) = (
  inr (0, ground arith, ground arith, ground (arith, taken_kind kind best c t)),
  (λ _. above (k, c) refl, later),
  λ b eb. le_trans (taken_later kind best c b t eb) (above (k, c) refl),
)
Since-taken kind k c cs best (i, r) t (inr (j, ei, ej, ek), later, above) = (
  inr (suc j, omega arith, ej, ek),
  (λ _. above (k, c) refl, later),
  λ b eb. le_trans (taken_later kind best c b t eb) (above (k, c) refl),
)

Since-passed :
    (kind : String) (k : ℕ) (c : NodeCondition) (cs : List NodeCondition)
    (best : Option (ℕ × NodeCondition)) (r : ℕ × NodeCondition)
    → takes kind best c ≡ false
    → Since kind (suc k) cs best r
    → Since kind k (c ∷ cs) best r
Since-passed kind k c cs best (i, r) t (found, later, above) = (
  elim found [ inl e ↦ inl e | inr (j, ei, ej, ek) ↦ inr (suc j, omega arith, ej, ek) ],
  ((λ same. let (b, eb, le) = passed_later kind best c t same in le_trans le (above b eb)), later),
  above,
)

find_from-Since :
    (kind : String) (k : ℕ) (cs : List NodeCondition) (best : Option (ℕ × NodeCondition))
    (r : ℕ × NodeCondition)
    → find_from kind k cs best ≡ some r
    → Since kind k cs best r
unfolding find_from
find_from-Since kind k [] best r e = (inl e, tt, λ b eb. ground arith)
find_from-Since kind k (c ∷ cs) best r e = elim (Bool-cases (takes kind best c)) [
  | inl t ↦
      Since-taken kind k c cs best r t (find_from-Since kind (suc k) cs (some (k, c)) r (rw t at e))
  | inr t ↦ Since-passed kind k c cs best r t (find_from-Since kind (suc k) cs best r (rw t at e))
]

-- A condition that FindCondition finds stands at the returned index, is of the wanted type, and no
-- condition of that type has a later heartbeat.
pub find_condition_latest :
    (conds : List NodeCondition) (kind : String) (i : ℕ) (c : NodeCondition)
    → find_condition conds kind ≡ some (i, c)
    → (get_elem? conds i ≡ some c) × (c.kind ≡ kind) × NoneLater kind c conds
unfolding find_condition
find_condition_latest conds kind i c e = finish (find_from-Since kind 0 conds none (i, c) e)
  where
    finish :
        Since kind 0 conds none (i, c)
        → (get_elem? conds i ≡ some c) × (c.kind ≡ kind) × NoneLater kind c conds
    finish (inl n, later, above) = cc
    finish (inr (j, ei, ej, ek), later, above) =
        let same : i ≡ j = omega arith in (rw same ej, ek, later)

find_from-some :
    (kind : String) (k : ℕ) (cs : List NodeCondition) (b : ℕ × NodeCondition)
    → find_from kind k cs (some b) ≢ none
unfolding find_from
find_from-some kind k [] b e = cc
find_from-some kind k (c ∷ cs) b e = elim (Bool-cases (takes kind (some b) c)) [
  | inl t ↦ find_from-some kind (suc k) cs (k, c) (rw t at e)
  | inr t ↦ find_from-some kind (suc k) cs b (rw t at e)
]

find_from-none :
    (kind : String) (k : ℕ) (cs : List NodeCondition)
    → (find_from kind k cs none ≡ none) ↔ All (λ (d : NodeCondition). d.kind ≢ kind) cs
unfolding find_from
find_from-none kind k [] = (λ _. tt, λ _. refl)
find_from-none kind k (c ∷ cs) = elim (Bool-cases (c.kind == kind)) [
  | inl t ↦ rw t (
    λ e. absurd (find_from-some kind (suc k) cs (k, c) e),
    λ h. absurd (h.0 ((eq_iff c.kind kind).0 t)),
  )
  | inr t ↦
      let rest = find_from-none kind (suc k) cs in
      rw t (
        λ e. ((λ same. false≢true (sym t ∙ (eq_iff c.kind kind).1 same)), rest.0 e),
        λ h. rest.1 h.1,
      )
]

-- FindCondition finds nothing exactly when no condition is of the wanted type.
pub find_condition-eq-none_iff :
    (conds : List NodeCondition) (kind : String)
    → (find_condition conds kind ≡ none) ↔ All (λ (d : NodeCondition). d.kind ≢ kind) conds
unfolding find_condition
find_condition-eq-none_iff conds kind = find_from-none kind 0 conds
