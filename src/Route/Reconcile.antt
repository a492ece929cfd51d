-- ===== src/Route/Reconcile.antt =====
-- `Reconcile`, `syncCloudRoute`, `addRouteForNode` and `reconcileForCluster` of
-- pkg/controller/route/route_controller.go, and `syncRoutes` of manager.go. Logs and metrics are left
-- out.
use vpc_route_controller.Common.{
  String, Bool, true, false, not, Option, none, some, List, [], ◌∷◌, ◌==◌, if◌then◌else◌, concat,
  lookup, has_key, Dict, insert, remove, Action, done, panicked, ok, err, Error, plain, message,
  is_not_found, pure, panic, modify, ◌>>=◌, ◌>>◌,
}
use vpc_route_controller.Kube.{Node}
use vpc_route_controller.Route.State.{
  Route, ReconcileRoute, Deps, in_world, record_event, warning, normal, get_log_message,
}
use vpc_route_controller.Route.Nodes.{
  need_sync_route, get_ipv4_route_for_node, get_node_instance_id, node_list,
}
use vpc_route_controller.Route.Cidr.{conflict_with_nodes}
use vpc_route_controller.Route.Calls.{
  find_route, create_route_for_instance, delete_route_for_instance,
}
use vpc_route_controller.Route.Condition.{update_networking_condition}

-- `route == nil || route.DestinationCIDR != ipv4Cidr`, turned round.
abbrev pub is_current : Option Route → String → Bool
is_current none cidr = false
is_current (some route) cidr = route.destination_cidr == cidr

-- `if route != nil { r.nodeCache.SetIfAbsent(node.Name, route) }`, on the cache.
unfoldable pub set_if_absent : String → Option Route → Dict Route → Dict Route
set_if_absent name none cache = cache
set_if_absent name (some route) cache =
    if has_key name cache then cache else insert name route cache

module _ {W : Type 0} where
  abbrev pub cache_route : String → Option Route → Action (ReconcileRoute W) (Unit {0})
  cache_route name route =
      modify (λ r. record r { node_cache = set_if_absent name route r.node_cache })

module _ {W : Type 0} (d : Deps W) where
  -- The part of `addRouteForNode` that makes the route.
  unfoldable pub create_for_node : String → String → Node → Action (ReconcileRoute W) (Option Error)
  create_for_node instance_id cidr node = do
    created ← in_world (create_route_for_instance d instance_id cidr)
    elim created [
      | err e ↦ do
        record_event (record {
          node_name = node.name;
          uid = instance_id;
          severity = warning;
          reason = "CreateRouteFailed";
          text = concat ("Error creating route entry : " ∷ get_log_message d.libs e ∷ []);
        })
        pure (some e)
      | ok route ↦ do
        record_event (record {
          node_name = node.name;
          uid = instance_id;
          severity = normal;
          reason = "CreatedRoute";
          text = concat ("Created route for " ∷ node.name ∷ " -> " ∷ cidr ∷ " successfully" ∷ []);
        })
        cache_route node.name route
        pure none
    ]

  -- `addRouteForNode`
  unfoldable pub add_route_for_node :
      String → Node → List Route → Action (ReconcileRoute W) (Option Error)
  unfolding create_for_node
  add_route_for_node cidr node cached =
      let instance_id = get_node_instance_id node in
      if instance_id == "" then pure (some (plain "cannot find instance uuid.")) else (do
        found ← in_world (find_route d cidr cached)
        elim found [
          | err e ↦ do
            record_event (record {
              node_name = node.name;
              uid = instance_id;
              severity = warning;
              reason = "DescriberRouteFailed";
              text = concat (
                  "Describe Route Failed for "
                  ∷ cidr
                  ∷ " reason: "
                  ∷ get_log_message d.libs e
                  ∷ []);
            })
            pure none
          | ok route ↦
              if is_current route cidr
              then (cache_route node.name route >> pure none)
              else create_for_node instance_id cidr node
        ])

  abbrev set_network : Node → Bool → Action (ReconcileRoute W) (Option Error)
  set_network node created = in_world (update_networking_condition d.kube node created)

  -- `syncCloudRoute`
  unfoldable pub sync_cloud_route : Node → Action (ReconcileRoute W) (Option Error)
  sync_cloud_route node =
      if not (need_sync_route node) then pure none else elim (get_ipv4_route_for_node d.libs node) [
        | err e ↦ do set_network node false; pure (some e)
        | ok (net, cidr) ↦ if cidr == "" then (do set_network node false; pure none) else (do
          failure ← add_route_for_node cidr node []
          elim (d.libs.new_aggregate (failure ∷ [])) [
            | some e ↦ do set_network node false; pure (some e)
            | none ↦ set_network node true
          ])
      ]

  -- `Reconcile` of a node that is gone.
  unfoldable pub reconcile_missing : String → Action (ReconcileRoute W) (Option Error)
  reconcile_missing name r = elim (lookup name r.node_cache) [
    | none ↦ (done none, r)
    | some route ↦
        (do
          failure ← in_world (delete_route_for_instance d route.destination_cidr)
          elim (d.libs.new_aggregate (elim failure [ none ↦ [] | some e ↦ some e ∷ [] ])) [
            | none ↦ do modify (λ r. record r { node_cache = remove name r.node_cache }); pure none
            | some e ↦ pure (some e)
          ])
          r
  ]

  -- `Reconcile` of the node of that name: the error asks for the request to be queued again.
  unfoldable pub reconcile : String → Action (ReconcileRoute W) (Option Error)
  unfolding reconcile_missing sync_cloud_route
  reconcile name r =
      if not r.config_routes
      then (done none, r)
      else (do
        got ← in_world (d.kube.get_node name)
        elim got [
          | err e ↦ if is_not_found e then reconcile_missing name else pure (some e)
          | ok node ↦ do
            failure ← sync_cloud_route node
            elim failure [
              | none ↦ pure none
              | some e ↦ do
                record_event (record {
                  node_name = node.name;
                  uid = node.name;
                  severity = warning;
                  reason = "SyncRouteFailed";
                  text = "sync cloud route failed";
                })
                pure none
            ]
        ])
          r

  -- The first loop of `syncRoutes`; a route that cannot be deleted is passed over.
  unfoldable pub drop_conflicts : List Route → List Node → Action (ReconcileRoute W) (Unit {0})
  drop_conflicts [] nodes = pure tt
  drop_conflicts (route ∷ routes) nodes = elim (conflict_with_nodes d.libs route nodes) [
    | panicked ↦ panic
    | done true ↦ do
      in_world (delete_route_for_instance d route.destination_cidr)
      drop_conflicts routes nodes
    | done false ↦ drop_conflicts routes nodes
  ]

  -- A round of the second loop.
  unfoldable pub sync_node : Node → List Route → Action (ReconcileRoute W) (Unit {0})
  sync_node node routes =
      if not (need_sync_route node) then pure tt else elim (get_ipv4_route_for_node d.libs node) [
        | err e ↦ pure tt
        | ok (net, cidr) ↦ if cidr == "" then pure tt else (do
          failure ← add_route_for_node cidr node routes
          elim failure [ some e ↦ pure tt | none ↦ do set_network node true; pure tt ])
      ]

  unfoldable pub sync_nodes : List Node → List Route → Action (ReconcileRoute W) (Unit {0})
  unfolding sync_node
  sync_nodes [] routes = pure tt
  sync_nodes (node ∷ nodes) routes = do sync_node node routes; sync_nodes nodes routes

  -- `syncRoutes`
  unfoldable pub sync_routes : List Node → Action (ReconcileRoute W) (Option Error)
  unfolding drop_conflicts sync_nodes
  sync_routes nodes = do
    listed ← in_world d.cloud.list_routes
    elim listed [
      | err e ↦ pure (some (plain (concat ("error listing routes: " ∷ message e ∷ []))))
      | ok routes ↦ do drop_conflicts routes nodes; sync_nodes nodes routes; pure none
    ]

  -- `reconcileForCluster`
  unfoldable pub reconcile_for_cluster : Action (ReconcileRoute W) (Unit {0})
  reconcile_for_cluster = do
    listed ← in_world (node_list d.kube)
    elim listed [ err e ↦ pure tt | ok nodes ↦ do sync_routes nodes; pure tt ]
