-- ===== src/Ksyun/Composed.antt =====
-- The controller over package ksyun and a service that keeps a list of entries: pkg/controller/route with
-- pkg/ksyun and pkg/http below it.
use vpc_route_controller.Common.{String, false, List, ◌∷◌, [], All, ◌≡◌, done, ok, Bool}
use vpc_route_controller.Kube.{Node}
use vpc_route_controller.Route.State.{Route, ReconcileRoute, Deps, IsBackoff}
use vpc_route_controller.Route.Nodes.{without_excluded}
use vpc_route_controller.Route.Cidr.{conflict_with_nodes}
use vpc_route_controller.Route.Reconcile.{reconcile_for_cluster}
use vpc_route_controller.Route.Table.{LeavesTable, Grows, specific}
use vpc_route_controller.Route.Reach.{Wants}
use vpc_route_controller.Route.Rounds.{Served, reconcile_for_cluster-Served}
use vpc_route_controller.Ksyun.Types.{Config, Services, RouteSetType}
use vpc_route_controller.Ksyun.Routes.{ksyun_cloud}
use vpc_route_controller.Ksyun.Vpc.{CanSend, KeepsEntries, entries_of}
use vpc_route_controller.Ksyun.Entries.{entries_of-some}
use vpc_route_controller.Ksyun.Cloud.{table, ksyun_cloud-KeepsTable}

-- The dependencies of the controller, with package ksyun as its cloud.
abbrev pub over_ksyun : {W : Type 0} → Deps W → Services W → Config → Deps W
over_ksyun d env conf = record d { cloud = ksyun_cloud env conf }

-- The service has an entry of every network that the node wants a route of.
abbrev pub HasEntries : {W : Type 0} → Deps W → (W → List RouteSetType) → W → Node → Type 0
HasEntries d entries w node =
    (cidr : String)
    → Wants d node cidr
    → (entry : RouteSetType) × (others : List RouteSetType) × (entries_of cidr (entries w)
        ≡ entry ∷ others)

module _ {W : Type 0} (d : Deps W) (b : IsBackoff d.backoff) (env : Services W) (conf : Config)
    (trusted : Bool) (entries : W → List RouteSetType) (can : CanSend env conf entries)
    (keeps : KeepsEntries env conf trusted entries)
    (leaves : LeavesTable d.kube (table env conf trusted entries can keeps)) where
  -- The table behind the controller.
  abbrev pub routes : W → List Route
  routes = table env conf trusted entries can keeps

  each_node :
      (nodes : List Node) (w : W)
      → All
          (Served
            (over_ksyun d env conf)
            b
            routes
            (ksyun_cloud-KeepsTable env conf trusted entries can keeps)
            leaves
            w)
          nodes
      → All (HasEntries (over_ksyun d env conf) entries w) nodes
  each_node [] w all = tt
  each_node (node ∷ nodes) w (served, all) = (
    λ cidr wants.
        let (route, here) = served cidr wants in entries_of-some cidr (entries w) route here,
    each_node nodes w all,
  )

  -- Take package ksyun as the cloud of the controller, over the HTTP client and a service that
  -- keeps a list of entries. Suppose that keys are there, requests can be made and signed, and
  -- retry.Do ends with the first success or refusal; that the backoff behaves as documented; that
  -- the API server answers with those nodes and its calls leave the entries' routes alone; and
  -- that no listed route conflicts with the nodes that are not excluded. The periodic run returns,
  -- loses no route, and leaves the service with an entry of every network that one of the nodes
  -- wants.
  pub reconcile_for_cluster-HasEntries :
      (nodes : List Node) (w : W) (r : ReconcileRoute W)
      → d.kube.list_nodes r.world ≡ (done (ok nodes), w)
      → All
          (λ (route : Route).
            conflict_with_nodes d.libs route (without_excluded nodes) ≡ done false)
          (specific (routes r.world))
      → (r' : ReconcileRoute W) × (reconcile_for_cluster (over_ksyun d env conf) r ≡ (done tt, r'))
        × Grows (routes r.world) (routes r'.world)
        × All (HasEntries (over_ksyun d env conf) entries r'.world) nodes
  reconcile_for_cluster-HasEntries nodes w r listed fit =
      let (r', ran, grows, served) =
        reconcile_for_cluster-Served (over_ksyun d env conf) b routes
          (ksyun_cloud-KeepsTable env conf trusted entries can keeps) leaves nodes w r listed fit in
      (r', ran, grows, each_node nodes r'.world served)
