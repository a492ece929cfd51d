-- ===== src/Route/Tests/Syncs.antt =====
-- Theorems about the sync of a node, at the cluster of the parent module.
use mathlib.Core.Path.{Path}
use vpc_route_controller.Common.{
  ℕ, suc, true, false, Option, none, some, [], ◌∷◌, ◌≡◌, refl, ◌==◌, ◌⊎◌, lookup, done, Result, ok,
  Error, insert,
}
use vpc_route_controller.Kube.{find_condition, has_exclude_label}
use vpc_route_controller.Kube.Patch.{patch_m}
use vpc_route_controller.Route.State.{Route}
use vpc_route_controller.Route.Nodes.{
  need_sync_route, get_ipv4_route_for_node, get_node_instance_id,
}
use vpc_route_controller.Route.Calls.{cached_route, find_route}
use vpc_route_controller.Route.Condition.{
  update_networking_condition, already_set, update_retry, diff,
}
use vpc_route_controller.Route.Reconcile.{
  set_if_absent, sync_node, sync_routes, sync_cloud_route, add_route_for_node,
}
use vpc_route_controller.Route.Resync.{sync_node_listed, conflict_not_recreated}
use vpc_route_controller.Route.Answers.{sync_cloud_route_marks}
use vpc_route_controller.Route.Tests.{
  network_text, network, node, own_route, foreign_route, laws, kube, deps_of, deps, state,
}

needs : need_sync_route node ≡ true
unfolding need_sync_route has_exclude_label lookup find_condition
needs = refl

spec :
    (deletion : Option Error) (found : Result (Option Route))
    → get_ipv4_route_for_node (deps_of deletion found).libs node ≡ ok (some network, network_text)
unfolding get_ipv4_route_for_node
spec deletion found = refl

has_id : get_node_instance_id node == "" ≡ false
unfolding get_node_instance_id
has_id = refl

other_id : foreign_route.instance_id == get_node_instance_id node ≡ false
unfolding get_node_instance_id
other_id = refl

marks : (w : ℕ) → update_networking_condition kube node true w ≡ (done none, suc w)
unfolding update_networking_condition find_condition already_set update_retry patch_m diff
marks w = refl

adds :
    add_route_for_node deps network_text node [] (state [])
    ≡ (done none, state (("node-1", own_route) ∷ []))
unfolding add_route_for_node get_node_instance_id find_route set_if_absent insert lookup
adds = refl

sync_node_listed_example : sync_node deps node (own_route ∷ []) (state []) ≡ (
  done tt,
  record (state []) { node_cache = set_if_absent "node-1" (some own_route) []; world = 1 },
)
unfolding cached_route
sync_node_listed_example =
    sync_node_listed deps node (own_route ∷ []) own_route (some network) network_text none 1
      (state []) needs (spec none (ok (some own_route))) refl has_id refl (marks 0)

conflict_not_recreated_example : sync_routes deps (node ∷ []) (state []) ≡ (
  done none,
  record (state []) { node_cache = set_if_absent "node-1" (some foreign_route) []; world = 2 },
)
conflict_not_recreated_example =
    conflict_not_recreated deps node foreign_route network network none 0 1 2 (state []) refl refl
      (marks 1) needs (spec none (ok (some own_route))) refl refl refl has_id other_id

sync_cloud_route_marks_example :
    ((Path (Option Error) none none)
      × (sync_cloud_route deps node (state [])
          ≡ (done none, record (state (("node-1", own_route) ∷ [])) { world = 1 })))
    ⊎ ((x : Error) × (e : Error) × (Path (Option Error) none (some x))
        × (deps.libs.new_aggregate (some x ∷ []) ≡ some e)
        × (sync_cloud_route deps node (state [])
            ≡ (done (some e), record (state (("node-1", own_route) ∷ [])) { world = 1 })))
sync_cloud_route_marks_example =
    sync_cloud_route_marks deps laws (state []) node (some network) network_text none none
      (state (("node-1", own_route) ∷ [])) 1 needs (spec none (ok (some own_route))) refl adds
      (marks 0)
