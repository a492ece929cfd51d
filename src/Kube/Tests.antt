-- ===== src/Kube/Tests.antt =====
-- `FindCondition` on a list with two conditions of one type.
use vpc_route_controller.Common.{ℕ, ◌≡◌, refl, some, List, [], ◌∷◌, get_elem?}
use vpc_route_controller.Kube.{NodeCondition, blank_condition, find_condition}
use vpc_route_controller.Kube.Conditions.{NoneLater, find_condition_latest}

abbrev ready_at : ℕ → NodeCondition
ready_at t = record blank_condition { kind = "Ready"; heartbeat = t }

abbrev conds : List NodeCondition
conds = ready_at 3 ∷ blank_condition ∷ ready_at 8 ∷ []

find_condition_latest_example :
    (get_elem? conds 2 ≡ some (ready_at 8))
    × ((ready_at 8).kind ≡ "Ready")
    × NoneLater "Ready" (ready_at 8) conds
unfolding find_condition
find_condition_latest_example = find_condition_latest conds "Ready" 2 (ready_at 8) refl
