-- ===== src/Route/Condition.antt =====
-- `updateNetworkingCondition` of pkg/controller/route/route_controller.go.
use vpc_route_controller.Common.{
  ℕ, zero, suc, String, Bool, true, false, Option, none, some, List, [], ◌∷◌, ◌++◌, ◌==◌,
  if◌then◌else◌, set, Action, Result, ok, Error, is_conflict, pure, ◌>>=◌,
}
use vpc_route_controller.Kube.{Node, NodeCondition, KubeClient, blank_condition, find_condition}
use vpc_route_controller.Kube.Patch.{patch_m, patch_status}

-- `updateNodeStatusMaxRetries`
abbrev pub max_retries : ℕ
max_retries = 3

abbrev pub network_unavailable : String
network_unavailable = "NetworkUnavailable"

abbrev pub condition_true : String
condition_true = "True"

abbrev pub condition_false : String
condition_false = "False"

-- The fields that the closure `diff` writes into a condition.
unfoldable pub set_condition : Bool → ℕ → ℕ → NodeCondition → NodeCondition
set_condition route_created transition heartbeat c = record c {
  kind = network_unavailable;
  transition = transition;
  heartbeat = heartbeat;
  status = if route_created then condition_false else condition_true;
  reason = if route_created then "RouteCreated" else "NoRouteCreated";
  text =
      if route_created
      then "RouteController created a route"
      else "RouteController failed to create a route";
}

-- The conditions after `diff`: the one found is written in place, or a blank one appended.
unfoldable pub set_conditions : Bool → ℕ → ℕ → List NodeCondition → List NodeCondition
unfolding set_condition
set_conditions route_created transition heartbeat conds =
    elim (find_condition conds network_unavailable) [
      | none ↦ conds ++ set_condition route_created transition heartbeat blank_condition ∷ []
      | some (i, c) ↦ set conds i (set_condition route_created transition heartbeat c)
    ]

-- Whether the early returns of `updateNetworkingCondition` apply.
unfoldable pub already_set : Node → Bool → Bool
already_set node route_created = elim (find_condition node.conditions network_unavailable) [
  | none ↦ false
  | some (i, c) ↦ c.status == (if route_created then condition_false else condition_true)
]

module _ {W : Type 0} (kube : KubeClient W) where
  -- The closure `diff`, which reads the clock twice.
  unfoldable pub diff : Bool → Node → Action W (Result Node)
  unfolding set_conditions
  diff route_created copy = do
    transition ← kube.now
    heartbeat ← kube.now
    pure (
        ok (record copy {
          conditions = set_conditions route_created transition heartbeat copy.conditions;
        }))

  -- The rest of a round: only a conflict leads to another one.
  unfoldable pub after_patch :
      (Node → Option Error → Action W (Option Error))
      → Node × Option Error
      → Action W (Option Error)
  after_patch again (fresh, none) = pure none
  after_patch again (fresh, some e) = elim (is_conflict e) [
    | true ↦ again fresh (some e)
    | false ↦ pure (some e)
  ]

  -- The loop, with the rounds left, the node as last read and the last error.
  unfoldable pub update_retry : ℕ → Node → Bool → Option Error → Action W (Option Error)
  unfolding after_patch
  update_retry zero node route_created last = pure last
  update_retry (suc rounds) node route_created last =
      patch_m kube node (diff route_created) patch_status
      >>= after_patch (λ fresh. update_retry rounds fresh route_created)

  -- `updateNetworkingCondition`
  unfoldable pub update_networking_condition : Node → Bool → Action W (Option Error)
  update_networking_condition node route_created =
      if already_set node route_created
      then pure none
      else update_retry max_retries node route_created none
