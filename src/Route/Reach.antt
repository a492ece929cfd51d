-- ===== src/Route/Reach.antt =====
-- `Reconcile` before a cloud that keeps a table of routes and an
-- API server that answers: the node has a route afterwards.
use mathlib.Core.Option.{none-ne-some}
use vpc_route_controller.Common.{
  String, true, false, Option, none, some, List, [], ◌≡◌, refl, ap, ◌==◌, done, ok, Error, Outcome,
}
use vpc_route_controller.Kube.{Node}
use vpc_route_controller.Route.State.{
  Route, ReconcileRoute, Deps, IsBackoff, AggregateLaws, IpNet, record_event, warning,
}
use vpc_route_controller.Route.Nodes.{
  need_sync_route, get_ipv4_route_for_node, get_node_instance_id,
}
use vpc_route_controller.Route.Calls.{cached_route}
use vpc_route_controller.Route.Reconcile.{add_route_for_node, sync_cloud_route, reconcile}
use vpc_route_controller.Route.Table.{Leaves-table, KeepsTable, LeavesTable, Grows}
use vpc_route_controller.Route.Upkeep.{update_networking_condition-Leaves}
use vpc_route_controller.Route.Converge.{RoutedFrom, add_route_for_node-Settles}

module _ {W : Type 0} (d : Deps W) where
  -- A node that needs a route, has an instance id, and has that pod network.
  abbrev pub Wants : Node → String → Type 0
  Wants node cidr =
      (need_sync_route node ≡ true)
      × ((net : Option IpNet) × (get_ipv4_route_for_node d.libs node ≡ ok (net, cidr)))
      × (cidr == "" ≡ false)
      × (get_node_instance_id node == "" ≡ false)

module _ {W : Type 0} (d : Deps W) (b : IsBackoff d.backoff) (table : W → List Route)
    (keeps : KeepsTable d.cloud table) (leaves : LeavesTable d.kube table) where
  -- The call ends with that answer, has lost no route, and leaves the network with one, an older one or
  -- one to that instance.
  abbrev pub Reaches :
      {A : Type 0} → String → String → ReconcileRoute W → Outcome A × ReconcileRoute W → A → Type 0
  Reaches {A} id cidr r out answer =
      (r' : ReconcileRoute W) × (out ≡ (done answer, r'))
      × Grows (table r.world) (table r'.world)
      × RoutedFrom d b table keeps id cidr r.world r'.world

  module _ (laws : AggregateLaws d.libs) where
    sync_cloud_route-Reaches :
        (node : Node) (cidr : String) (r : ReconcileRoute W)
        → Wants d node cidr
        → (answer : Option Error) × Reaches
            (get_node_instance_id node)
            cidr
            r
            (sync_cloud_route d node r)
            answer
    unfolding sync_cloud_route cached_route
    sync_cloud_route-Reaches node cidr r (needs, (net, spec), ne, has_id) =
        let (added, grows, from) =
          add_route_for_node-Settles d b table keeps cidr node [] r ne has_id
            (λ c x h. absurd (none-ne-some x h)) in
        let after = (add_route_for_node d cidr node [] r).1 in
        let (answer, v, marked, t) =
          update_networking_condition-Leaves d.kube table leaves node true after.world in
        let returned : add_route_for_node d cidr node [] r ≡ (done none, after) =
          ap (λ a. (a, after)) added in
        (
          answer,
          (
            record after { world = v },
            rw (needs, sync_cloud_route)
                (rw spec (rw ne (rw returned (rw laws.nil_only (rw marked refl))))),
            rw t grows,
            rw t from,
          ),
        )

    -- Reconcile of a node that is there keeps what syncCloudRoute made of the state, but for an event.
    pub reconcile_present :
        (name : String) (node : Node) (w : W) (r r' : ReconcileRoute W) (answer : Option Error)
        → r.config_routes ≡ true
        → d.kube.get_node name r.world ≡ (done (ok node), w)
        → sync_cloud_route d node (record r { world = w }) ≡ (done answer, r')
        → (r'' : ReconcileRoute W) × (reconcile d name r ≡ (done none, r''))
          × (r''.world ≡ r'.world)
          × (r''.node_cache ≡ r'.node_cache)
          × (r''.config_routes ≡ r'.config_routes)
    unfolding reconcile
    reconcile_present name node w r r' none on got synced =
        (r', rw (on, reconcile) (rw got (rw (rw on at synced) refl)), refl, refl, refl)
    reconcile_present name node w r r' (some e) on got synced = (
      (record_event
          (record {
            node_name = node.name;
            uid = node.name;
            severity = warning;
            reason = "SyncRouteFailed";
            text = "sync cloud route failed";
          })
          r').1,
      rw (on, reconcile) (rw got (rw (rw on at synced) refl)),
      refl,
      refl,
      refl,
    )

    -- Suppose that the cloud keeps a table of routes, that the backoff and the aggregate behave as
    -- documented, that the API server answers and its calls leave the table alone, and that the
    -- sync of routes is on. For a node that the API server returns and that needs a route, has an
    -- instance id and a pod network, Reconcile answers no error, loses no route, and leaves that
    -- network with a route in the cloud: an older one, or one to the node's instance.
    pub reconcile-Reaches :
        (name cidr : String) (node : Node) (w : W) (r : ReconcileRoute W)
        → r.config_routes ≡ true
        → d.kube.get_node name r.world ≡ (done (ok node), w)
        → Wants d node cidr
        → Reaches (get_node_instance_id node) cidr r (reconcile d name r) none
    unfolding reconcile
    reconcile-Reaches name cidr node w r on got wants =
        let t =
          Leaves-table table (d.kube.get_node name) (ok node) r.world w (leaves.get_node name)
            got in
        let (answer, (r', synced, grows, from)) =
          sync_cloud_route-Reaches node cidr (record r { world = w }) wants in
        let (r'', ended, world, cache, on') =
          reconcile_present name node w r r' answer on got synced in
        (r'', ended, rw (← world, t) at grows, rw (← world, t) at from)
