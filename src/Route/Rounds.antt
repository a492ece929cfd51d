-- ===== src/Route/Rounds.antt =====
-- The periodic `reconcileForCluster` before a cloud that keeps a table of routes and an
-- API server that answers: which nodes have a route afterwards.
use vpc_route_controller.Common.{
  String, true, false, Option, none, List, [], ◌∷◌, ◌≡◌, refl, sym, ap, ◌∙◌, ◌==◌, All, Bool-cases,
  inl, inr, done, Result, ok, err, arith,
}
use vpc_route_controller.Kube.{Node, has_exclude_label}
use vpc_route_controller.Route.State.{Route, ReconcileRoute, Deps, IsBackoff, IpNet}
use vpc_route_controller.Route.Nodes.{
  need_sync_route, get_ipv4_route_for_node, get_node_instance_id, node_list, without_excluded,
}
use vpc_route_controller.Route.Cidr.{conflict_with_nodes}
use vpc_route_controller.Route.Reconcile.{
  add_route_for_node, drop_conflicts, sync_node, sync_nodes, sync_routes, reconcile_for_cluster,
}
use vpc_route_controller.Route.Table.{
  Leaves-table, KeepsTable, LeavesTable, Grows, specific, Grows-specific,
}
use vpc_route_controller.Route.Upkeep.{update_networking_condition-Leaves}
use vpc_route_controller.Route.Converge.{Routed, add_route_for_node-Settles}
use vpc_route_controller.Route.Reach.{Wants}

module _ {W : Type 0} (d : Deps W) (b : IsBackoff d.backoff) (table : W → List Route)
    (keeps : KeepsTable d.cloud table) (leaves : LeavesTable d.kube table) where
  -- A round of the second loop of `syncRoutes`: it returns, loses no route, and a node that wants a route
  -- of a network has one.
  abbrev Round : Node → List Route → ReconcileRoute W → Type 0
  Round node routes r =
      (r' : ReconcileRoute W) × (sync_node d node routes r ≡ (done tt, r'))
      × Grows (table r.world) (table r'.world)
      × ((cidr : String) → Wants d node cidr → Routed d b table keeps cidr r'.world)

  round_wanted :
      (node : Node) (net : Option IpNet) (cidr : String) (routes : List Route)
      (r : ReconcileRoute W)
      → need_sync_route node ≡ true
      → get_ipv4_route_for_node d.libs node ≡ ok (net, cidr)
      → cidr == "" ≡ false
      → get_node_instance_id node == "" ≡ false
      → Grows routes (table r.world)
      → Round node routes r
  unfolding sync_node
  round_wanted node net cidr routes r needs spec ne has_id sub =
      let (added, grows, (route, here, from)) =
        add_route_for_node-Settles d b table keeps cidr node routes r ne has_id sub in
      let after = (add_route_for_node d cidr node routes r).1 in
      let (answer, v, marked, t) =
        update_networking_condition-Leaves d.kube table leaves node true after.world in
      let returned : add_route_for_node d cidr node routes r ≡ (done none, after) =
        ap (λ a. (a, after)) added in
      (
        record after { world = v },
        rw (needs, sync_node) (rw spec (rw ne (rw returned (rw marked refl)))),
        rw t grows,
        λ other wants.
            let (needs', (net', spec'), ne', id') = wants in
            let same : cidr ≡ other = ground (arith, sym spec ∙ spec') in
            (route, rw (← same, t) here),
      )

  round_unnamed :
      (node : Node) (net : Option IpNet) (cidr : String) (routes : List Route)
      (r : ReconcileRoute W)
      → need_sync_route node ≡ true
      → get_ipv4_route_for_node d.libs node ≡ ok (net, cidr)
      → cidr == "" ≡ false
      → get_node_instance_id node == "" ≡ true
      → sync_node d node routes r ≡ (done tt, r)
  unfolding sync_node add_route_for_node
  round_unnamed node net cidr routes r needs spec ne no_id =
      rw (needs, sync_node) (rw spec (rw ne (rw (no_id, add_route_for_node) refl)))

  sync_node-Round :
      (node : Node) (routes : List Route) (r : ReconcileRoute W)
      → Grows routes (table r.world)
      → Round node routes r
  unfolding sync_node
  sync_node-Round node routes r sub = elim (Bool-cases (need_sync_route node)) [
    | inr idle ↦ (
      r,
      rw (idle, sync_node) refl,
      (λ c x h. h),
      λ cidr wants. absurd (ground (arith, idle, wants.0)),
    )
    | inl needs ↦ by_network (get_ipv4_route_for_node d.libs node) refl needs
  ]
    where
      by_network :
          (got : Result (Option IpNet × String))
          → get_ipv4_route_for_node d.libs node ≡ got
          → need_sync_route node ≡ true
          → Round node routes r
      by_network (err e) spec needs = (
        r,
        unfold sync_node in rw (needs, sync_node) (rw spec refl),
        (λ c x h. h),
        λ cidr wants.
            let (y, (net, spec'), ne, has_id) = wants in absurd (ground (arith, sym spec ∙ spec')),
      )
      by_network (ok (net, cidr)) spec needs = elim (Bool-cases (cidr == "")) [
        | inl empty ↦ (
          r,
          unfold sync_node in rw (needs, sync_node) (rw spec (rw empty refl)),
          (λ c x h. h),
          λ other wants.
              let (y, (net', spec'), ne', has_id) = wants in
              let same : cidr ≡ other = ground (arith, sym spec ∙ spec') in
              absurd (ground (arith, rw same at empty, ne')),
        )
        | inr ne ↦ elim (Bool-cases (get_node_instance_id node == "")) [
          | inl unnamed ↦ (
            r,
            round_unnamed node net cidr routes r needs spec ne unnamed,
            (λ c x h. h),
            λ other wants.
                let (y, s, ne', has_id) = wants in absurd (ground (arith, unnamed, has_id)),
          )
          | inr named ↦ round_wanted node net cidr routes r needs spec ne named sub
        ]
      ]

  -- The node has a route of each network that it wants one of; there is one such network at most.
  abbrev pub Served : W → Node → Type 0
  Served w node = (cidr : String) → Wants d node cidr → Routed d b table keeps cidr w

  Served-Grows : (v w : W) (node : Node) → Grows (table v) (table w) → Served v node → Served w node
  Served-Grows v w node grows served cidr wants =
      let (route, here) = served cidr wants in (route, grows cidr route here)

  abbrev Rounds : List Node → List Route → ReconcileRoute W → Type 0
  Rounds nodes routes r =
      (r' : ReconcileRoute W) × (sync_nodes d nodes routes r ≡ (done tt, r'))
      × Grows (table r.world) (table r'.world)
      × All (Served r'.world) nodes

  sync_nodes-Rounds :
      (nodes : List Node) (routes : List Route) (r : ReconcileRoute W)
      → Grows routes (table r.world)
      → Rounds nodes routes r
  unfolding sync_nodes
  sync_nodes-Rounds [] routes r sub = (r, refl, (λ c x h. h), tt)
  sync_nodes-Rounds (node ∷ nodes) routes r sub =
      let (r1, one, grows, served) = sync_node-Round node routes r sub in
      let (r2, others, grows', all) =
        sync_nodes-Rounds nodes routes r1 (λ c x h. grows c x (sub c x h)) in
      (
        r2,
        rw one others,
        (λ c x h. grows' c x (grows c x h)),
        (λ cidr wants. Served-Grows r1.world r2.world node grows' served cidr wants, all),
      )

  no_conflicts :
      (routes : List Route) (nodes : List Node) (r : ReconcileRoute W)
      → All (λ (route : Route). conflict_with_nodes d.libs route nodes ≡ done false) routes
      → drop_conflicts d routes nodes r ≡ (done tt, r)
  unfolding drop_conflicts
  no_conflicts [] nodes r none_conflicts = refl
  no_conflicts (route ∷ routes) nodes r none_conflicts =
      rw (none_conflicts.0, drop_conflicts) (no_conflicts routes nodes r none_conflicts.1)

  excluded_idle : (node : Node) → has_exclude_label node ≡ true → need_sync_route node ≡ false
  unfolding need_sync_route
  excluded_idle node excluded = rw (excluded, need_sync_route) refl

  Served-without_excluded :
      (w : W) (nodes : List Node) → All (Served w) (without_excluded nodes) → All (Served w) nodes
  unfolding without_excluded
  Served-without_excluded w [] all = tt
  Served-without_excluded w (node ∷ nodes) all = elim (Bool-cases (has_exclude_label node)) [
    | inl excluded ↦ (
      λ cidr wants. absurd (ground (arith, excluded_idle node excluded, wants.0)),
      Served-without_excluded w nodes (rw excluded at all),
    )
    | inr kept ↦
        let (served, rest) : All (Served w) (node ∷ without_excluded nodes) = rw kept at all in
        (λ cidr wants. served cidr wants, Served-without_excluded w nodes rest)
  ]

  -- Suppose that the cloud keeps a table of routes, that the backoff behaves as documented, that
  -- the API server answers with those nodes and its calls leave the table alone, and that no route
  -- to one network in the table conflicts with the nodes that are not excluded. The periodic run
  -- returns, loses no route, and leaves every node that needs a route, has an instance id and a
  -- pod network with a route of that network.
  pub reconcile_for_cluster-Served :
      (nodes : List Node) (w : W) (r : ReconcileRoute W)
      → d.kube.list_nodes r.world ≡ (done (ok nodes), w)
      → All
          (λ (route : Route).
            conflict_with_nodes d.libs route (without_excluded nodes) ≡ done false)
          (specific (table r.world))
      → (r' : ReconcileRoute W) × (reconcile_for_cluster d r ≡ (done tt, r'))
        × Grows (table r.world) (table r'.world)
        × All (Served r'.world) nodes
  unfolding reconcile_for_cluster sync_routes node_list
  reconcile_for_cluster-Served nodes w r listed fit =
      let t = Leaves-table table d.kube.list_nodes (ok nodes) r.world w leaves.list_nodes listed in
      let (v, routes, t') = keeps.lists w in
      let kept = without_excluded nodes in
      let r1 = record r { world = v } in
      let (r2, synced, grows, served) =
        sync_nodes-Rounds kept (specific (table w)) r1
          (λ c x h. rw t' (Grows-specific (table w) c x h)) in
      (
        r2,
        rw (listed, reconcile_for_cluster, node_list)
            (rw (routes, sync_routes)
              (rw (no_conflicts (specific (table w)) kept r1 (rw t fit)) (rw synced refl))),
        (λ c x h. grows c x (rw (t', t) h)),
        Served-without_excluded r2.world nodes served,
      )
