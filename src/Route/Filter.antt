-- ===== src/Route/Filter.antt =====
-- Which updates of nodes `predicateForNodeEvent.Update` (pkg/controller/route/predicate.go) passes on.
use vpc_route_controller.Common.{
  String, Bool, true, false, not, List, [], ◌∷◌, ◌≡◌, ◌≢◌, ◌↔◌, refl, ◌⊎◌, ◌&&◌, if◌then◌else◌,
  is_some, eq_iff, arith, inl,
}
use vpc_route_controller.Kube.{Node, annotation}
use vpc_route_controller.Route.Nodes.{
  instance_uuid_key, instance_id_key, strings_eq, spec_changed, update_predicate,
}

strings_eq_iff : (xs ys : List String) → (strings_eq xs ys ≡ true) ↔ (xs ≡ ys)
unfolding strings_eq
strings_eq_iff [] [] = (λ _. refl, λ _. refl)
strings_eq_iff [] (y ∷ ys) = (λ h. absurd (ground (arith, h)), λ e. cc e)
strings_eq_iff (x ∷ xs) [] = (λ h. absurd (ground (arith, h)), λ e. cc e)
strings_eq_iff (x ∷ xs) (y ∷ ys) = (
  λ h. ground (arith, h, eq_iff x y, strings_eq_iff xs ys),
  λ e. ground (arith, e, eq_iff x y, strings_eq_iff xs ys),
)

-- The controller sees no difference between the nodes.
abbrev pub SameSpec : Node → Node → Type 0
SameSpec old new =
    (old.uid ≡ new.uid)
    × (old.pod_cidr ≡ new.pod_cidr)
    × (old.provider_id ≡ new.provider_id)
    × (old.pod_cidrs ≡ new.pod_cidrs)

spec_changed_iff : (old new : Node) → (spec_changed old new ≡ false) ↔ SameSpec old new
unfolding spec_changed
spec_changed_iff old new = ground (
  arith,
  eq_iff old.uid new.uid,
  eq_iff old.pod_cidr new.pod_cidr,
  eq_iff old.provider_id new.provider_id,
  strings_eq_iff old.pod_cidrs new.pod_cidrs,
)

-- Where instance ids do not come from annotations, the event filter drops an update exactly when
-- the UID, both fields of pod networks and the provider id stay as they are.
pub update_predicate_iff :
    (from : String) (old new : Node)
    → from ≢ "annotation"
    → (update_predicate from old new ≡ false) ↔ SameSpec old new
unfolding update_predicate
update_predicate_iff from old new other =
    ground (arith, other, eq_iff from "annotation", spec_changed_iff old new)

-- The node has the annotation.
abbrev pub HasKey : Node → String → Type 0
HasKey node key = is_some (annotation node key) ≡ true

decide :
    (had has had' has' changed : Bool) {P : Type 0}
    → (changed ≡ false) ↔ P
    → ((if not has && not has'
          then false
          else if not had && has
          then true
          else if not had' && has'
          then true
          else changed)
        ≡ false)
      ↔ (((has ≡ false) × (has' ≡ false))
          ⊎ ((has ≡ true → had ≡ true) × (has' ≡ true → had' ≡ true) × P))
decide had false had' false changed (f, g) = (λ _. inl (refl, refl), λ _. refl)
decide false true had' has' changed (f, g) = ground arith
decide true true had' has' changed (f, g) = ground arith
decide had false had' true changed (f, g) = ground arith

-- Where instance ids come from annotations, the event filter drops an update exactly when the new
-- node has neither annotation, or none was added and the UID, the pod networks and the provider id
-- stay as they are.
pub update_predicate-annotation_iff :
    (old new : Node)
    → (update_predicate "annotation" old new ≡ false) ↔ (
        ((is_some (annotation new instance_uuid_key) ≡ false)
          × (is_some (annotation new instance_id_key) ≡ false))
        ⊎ ((HasKey new instance_uuid_key → HasKey old instance_uuid_key)
            × (HasKey new instance_id_key → HasKey old instance_id_key)
            × SameSpec old new))
unfolding update_predicate
update_predicate-annotation_iff old new =
    decide (is_some (annotation old instance_uuid_key)) (is_some (annotation new instance_uuid_key))
      (is_some (annotation old instance_id_key)) (is_some (annotation new instance_id_key)) _
      (spec_changed_iff old new)
