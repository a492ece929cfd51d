-- ===== src/Route/Cache.antt =====
-- What becomes of the node cache: a route that is cached for a node stays, whatever is found or made
-- later, until the node is gone.
use vpc_route_controller.Common.{
  String, false, Option, none, some, List, [], ◌∷◌, ◌≡◌, ◌≢◌, ◌⊎◌, lookup, Dict, lookup-insert,
  lookup-remove, eq_iff, done, err, Error, is_not_found, inl, inr, arith,
}
use vpc_route_controller.Kube.{Node}
use vpc_route_controller.Route.State.{Route, ReconcileRoute, Deps}
use vpc_route_controller.Route.Reconcile.{
  set_if_absent, create_for_node, add_route_for_node, sync_cloud_route, reconcile_missing,
  reconcile, drop_conflicts, sync_node, sync_nodes, sync_routes, reconcile_for_cluster,
}

set_if_absent_keeps :
    (name k : String) (route : Option Route) (old : Route) (cache : Dict Route)
    → lookup k cache ≡ some old
    → lookup k (set_if_absent name route cache) ≡ some old
unfolding set_if_absent
set_if_absent_keeps name k none old cache h = h
set_if_absent_keeps name k (some route) old cache h =
    ground (arith, eq_iff name k, lookup-insert name k route cache)

module _ {W : Type 0} (k : String) (old : Route) where
  -- The node `k` has the route `old`.
  abbrev Has : ReconcileRoute W → Type 0
  Has r = lookup k r.node_cache ≡ some old

  module _ (d : Deps W) where
    create_for_node-keeps :
        (instance_id cidr : String) (node : Node) (r : ReconcileRoute W)
        → Has r
        → Has (create_for_node d instance_id cidr node r).1
    unfolding create_for_node
    create_for_node-keeps instance_id cidr node r h = grind (arith, set_if_absent_keeps)

    add_route_for_node-keeps :
        (cidr : String) (node : Node) (cached : List Route) (r : ReconcileRoute W)
        → Has r
        → Has (add_route_for_node d cidr node cached r).1
    unfolding add_route_for_node
    add_route_for_node-keeps cidr node cached r h =
        grind (arith, set_if_absent_keeps, create_for_node-keeps)

    sync_cloud_route-keeps :
        (node : Node) (r : ReconcileRoute W) → Has r → Has (sync_cloud_route d node r).1
    unfolding sync_cloud_route
    sync_cloud_route-keeps node r h = grind (arith, add_route_for_node-keeps)

    drop_conflicts-keeps :
        (routes : List Route) (nodes : List Node) (r : ReconcileRoute W)
        → Has r
        → Has (drop_conflicts d routes nodes r).1
    unfolding drop_conflicts
    drop_conflicts-keeps [] nodes r h = h
    drop_conflicts-keeps (route ∷ routes) nodes r h =
        grind (arith, drop_conflicts-keeps routes nodes)

    sync_node-keeps :
        (node : Node) (routes : List Route) (r : ReconcileRoute W)
        → Has r
        → Has (sync_node d node routes r).1
    unfolding sync_node
    sync_node-keeps node routes r h = grind (arith, add_route_for_node-keeps)

    sync_nodes-keeps :
        (nodes : List Node) (routes : List Route) (r : ReconcileRoute W)
        → Has r
        → Has (sync_nodes d nodes routes r).1
    unfolding sync_nodes
    sync_nodes-keeps [] routes r h = h
    sync_nodes-keeps (node ∷ nodes) routes r h =
        grind (arith, sync_node-keeps node routes r h, sync_nodes-keeps nodes routes)

    sync_routes-keeps :
        (nodes : List Node) (r : ReconcileRoute W) → Has r → Has (sync_routes d nodes r).1
    unfolding sync_routes
    sync_routes-keeps nodes r h = grind (arith, drop_conflicts-keeps, sync_nodes-keeps)

    -- The periodic run keeps every cached route, whatever the cloud and the API server answer, and
    -- also where it panics.
    pub reconcile_for_cluster-keeps :
        (r : ReconcileRoute W) → Has r → Has (reconcile_for_cluster d r).1
    unfolding reconcile_for_cluster
    reconcile_for_cluster-keeps r h = grind (arith, sync_routes-keeps)

    -- Reconcile keeps the cached route of every other node, and of its own node as long as the API
    -- server does not say that the node is gone, whatever else happens.
    pub reconcile-keeps :
        (name : String) (r : ReconcileRoute W)
        → Has r
        → (name ≢ k)
          ⊎ ((e : Error) → (d.kube.get_node name r.world).0 ≡ done (err e) → is_not_found e ≡ false)
        → Has (reconcile d name r).1
    unfolding reconcile reconcile_missing
    reconcile-keeps name r h (inl other) =
        grind (arith, sync_cloud_route-keeps, lookup-remove, eq_iff name k)
    reconcile-keeps name r h (inr present) = grind (arith, sync_cloud_route-keeps, present)
