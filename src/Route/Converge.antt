-- ===== src/Route/Converge.antt =====
-- The controller before a cloud that keeps a table of routes: how a node comes to have its route.
use vpc_route_controller.Common.{
  String, true, false, Option, none, some, List, [], ◌∷◌, ◌≡◌, refl, ◌==◌, ◌⊎◌, Option-cases, inl,
  inr, Outcome, done, ok, Error,
}
use vpc_route_controller.Kube.{Node}
use vpc_route_controller.Route.State.{Route, ReconcileRoute, Deps, IsBackoff}
use vpc_route_controller.Route.Calls.{
  cached_route, find_or_nil, find_route, create_route_for_instance,
}
use vpc_route_controller.Route.Creation.{made, existing, create_route_for_instance-Creates}
use vpc_route_controller.Route.Nodes.{get_node_instance_id}
use vpc_route_controller.Route.Reconcile.{set_if_absent, create_for_node, add_route_for_node}
use vpc_route_controller.Route.Resync.{cached_route-cidr}
use vpc_route_controller.Route.Table.{KeepsTable, Grows, Grows-append, cached_route-append_new}

module _ {W : Type 0} (d : Deps W) (b : IsBackoff d.backoff) (table : W → List Route)
    (keeps : KeepsTable d.cloud table) where
  -- The table has a route of the network.
  abbrev pub Routed : String → W → Type 0
  Routed cidr w = (route : Route) × (cached_route cidr (table w) ≡ some route)

  abbrev Created : String → String → W → Type 0
  Created id cidr w =
      (v : W) × (route : Route) × (create_route_for_instance d id cidr w
        ≡ (done (ok (some route)), v))
      × Grows (table w) (table v)
      × (cached_route cidr (table v) ≡ some route)
      × ((cached_route cidr (table w) ≡ some route) ⊎ (route.instance_id ≡ id))

  create_new : (id cidr : String) (w : W) → cached_route cidr (table w) ≡ none → Created id cidr w
  unfolding find_or_nil
  create_new id cidr w e =
      let (w1, route, made_it, t1, same, to) = keeps.adds id cidr w e in
      let (w2, found, t2) = keeps.finds cidr w1 in
      let here : cached_route cidr (table w1) ≡ some route =
        rw t1 (cached_route-append_new cidr (table w) route e same) in
      (
        w2,
        route,
        create_route_for_instance-Creates d b id cidr
            (made made_it (rw (found, find_or_nil) (rw here refl))),
        rw (t2, t1) (Grows-append (table w) route),
        rw t2 here,
        inr to,
      )

  create_same :
      (id cidr : String) (w : W) (route : Route)
      → cached_route cidr (table w) ≡ some route
      → Created id cidr w
  create_same id cidr w route e =
      let (w1, x, refused, same, t1) = keeps.refuses id cidr w route e in
      let (w2, found, t2) = keeps.finds cidr w1 in
      let here : cached_route cidr (table w1) ≡ some route = rw t1 e in
      (
        w2,
        route,
        create_route_for_instance-Creates d b id cidr (existing refused same (rw here at found)),
        rw (t2, t1) (λ c r h. h),
        rw t2 here,
        inl e,
      )

  create_settles : (id cidr : String) (w : W) → Created id cidr w
  create_settles id cidr w = elim (Option-cases (cached_route cidr (table w))) [
    | inl e ↦ create_new id cidr w e
    | inr (route, e) ↦ create_same id cidr w route e
  ]

  -- The table has a route of the network, which was there before or goes to the instance.
  abbrev pub RoutedFrom : String → String → W → W → Type 0
  RoutedFrom id cidr w v =
      (route : Route) × (cached_route cidr (table v) ≡ some route)
      × ((cached_route cidr (table w) ≡ some route) ⊎ (route.instance_id ≡ id))

  -- A call that answers no error, loses no route, and leaves the network with one.
  abbrev pub Settles :
      String → String → ReconcileRoute W → Outcome (Option Error) × ReconcileRoute W → Type 0
  Settles id cidr r (a, r') =
      (a ≡ done none) × Grows (table r.world) (table r'.world) × RoutedFrom id cidr r.world r'.world

  create_for_node-Settles :
      (id cidr : String) (node : Node) (r : ReconcileRoute W)
      → Settles id cidr r (create_for_node d id cidr node r)
  unfolding create_for_node
  create_for_node-Settles id cidr node r =
      let (v, route, e, grows, here, from) = create_settles id cidr r.world in
      rw (e, create_for_node) (refl, grows, (route, here, from))

  -- What the search for the route answers, and what the world is after it.
  abbrev Found : String → List Route → ReconcileRoute W → Type 0
  Found cidr cached r =
      (v : W) × (o : Option Route) × (find_route d cidr cached r.world ≡ (done (ok o), v))
      × (table v ≡ table r.world)
      × ((route : Route)
          → o ≡ some route
          → (cached_route cidr (table r.world) ≡ some route)
            × (route.destination_cidr == cidr ≡ true))

  find_settles :
      (cidr : String) (cached : List Route) (r : ReconcileRoute W)
      → cidr == "" ≡ false
      → Grows cached (table r.world)
      → Found cidr cached r
  unfolding find_route
  find_settles cidr [] r ne sub =
      let (v, found, t) = keeps.finds cidr r.world in
      (
        v,
        cached_route cidr (table r.world),
        rw (ne, find_route) found,
        t,
        λ route e. (e, cached_route-cidr cidr (table r.world) route e),
      )
  find_settles cidr (x ∷ xs) r ne sub = (
    r.world,
    cached_route cidr (x ∷ xs),
    rw (ne, find_route) refl,
    refl,
    λ route e. (sub cidr route e, cached_route-cidr cidr (x ∷ xs) route e),
  )

  add_current :
      (cidr : String) (node : Node) (cached : List Route) (r : ReconcileRoute W) (v : W)
      (route : Route)
      → get_node_instance_id node == "" ≡ false
      → find_route d cidr cached r.world ≡ (done (ok (some route)), v)
      → route.destination_cidr == cidr ≡ true
      → add_route_for_node d cidr node cached r ≡ (
        done none,
        record r { node_cache = set_if_absent node.name (some route) r.node_cache; world = v },
      )
  unfolding add_route_for_node
  add_current cidr node cached r v route has_id found same =
      rw (has_id, add_route_for_node) (rw found (rw same refl))

  pub add_missing :
      (cidr : String) (node : Node) (cached : List Route) (r : ReconcileRoute W) (v : W)
      → get_node_instance_id node == "" ≡ false
      → find_route d cidr cached r.world ≡ (done (ok none), v)
      → add_route_for_node d cidr node cached r
        ≡ create_for_node d (get_node_instance_id node) cidr node (record r { world = v })
  unfolding add_route_for_node
  add_missing cidr node cached r v has_id found = rw (has_id, add_route_for_node) (rw found refl)

  -- For a node that has an instance id, `addRouteForNode` answers no error, loses no route, and
  -- leaves the node's network with a route, an older one or one to the node's instance, where every route on the list is in the cloud.
  pub add_route_for_node-Settles :
      (cidr : String) (node : Node) (cached : List Route) (r : ReconcileRoute W)
      → cidr == "" ≡ false
      → get_node_instance_id node == "" ≡ false
      → Grows cached (table r.world)
      → Settles (get_node_instance_id node) cidr r (add_route_for_node d cidr node cached r)
  add_route_for_node-Settles cidr node cached r ne has_id sub =
      let (v, o, found, t, good) = find_settles cidr cached r ne sub in
      elim (Option-cases o) [
        | inr (route, e) ↦
            let (here, same) = good route e in
            rw (add_current cidr node cached r v route has_id (rw e at found) same)
              (refl, rw t (λ c x h. h), (route, rw t here, inl here))
        | inl e ↦
            let (answered, grows, (route, here, from)) =
              create_for_node-Settles (get_node_instance_id node) cidr node
                (record r { world = v }) in
            rw (add_missing cidr node cached r v has_id (rw e at found))
              (answered, (λ c x h. grows c x (rw t h)), (route, here, rw t at from))
      ]
