-- ===== src/Route/Life.antt =====
-- The life of a node before a cloud that keeps a table of routes: `Reconcile` makes its route, and the
-- `Reconcile` after the node is gone takes it away.
use vpc_route_controller.Common.{
  String, true, false, Option, none, some, List, [], ◌∷◌, ◌++◌, ◌≡◌, refl, ap, ◌∙◌, ◌==◌, eq_refl,
  Bool-cases, inl, inr, lookup, lookup-insert, Dict, Outcome, done, ok, err, Error, is_not_found,
  arith,
}
use vpc_route_controller.Kube.{Node}
use vpc_route_controller.Route.State.{Route, ReconcileRoute, Deps, IsBackoff, AggregateLaws}
use vpc_route_controller.Route.Nodes.{get_node_instance_id}
use vpc_route_controller.Route.Calls.{
  cached_route, find_or_nil, find_route, create_route_for_instance,
}
use vpc_route_controller.Route.Reconcile.{
  set_if_absent, create_for_node, add_route_for_node, sync_cloud_route, reconcile,
}
use vpc_route_controller.Route.Creation.{made, create_route_for_instance-Creates}
use vpc_route_controller.Route.Deletion.{gone_deletes}
use vpc_route_controller.Route.Table.{
  KeepsTable, LeavesTable, Leaves-table, without_first, cached_route-append_new,
}
use vpc_route_controller.Route.Upkeep.{update_networking_condition-Leaves}
use vpc_route_controller.Route.Converge.{add_missing}
use vpc_route_controller.Route.Reach.{Wants, reconcile_present}

-- To take away the route that was added restores the table.
without_first-append :
    (cidr : String) (t : List Route) (route : Route)
    → cached_route cidr t ≡ none
    → route.destination_cidr ≡ cidr
    → without_first cidr (t ++ route ∷ []) ≡ t
unfolding without_first cached_route
without_first-append cidr [] route e same = rw (same, eq_refl cidr) refl
without_first-append cidr (x ∷ t) route e same = elim (Bool-cases (x.destination_cidr == cidr)) [
  | inl hit ↦ absurd (ground (arith, e, hit))
  | inr miss ↦ rw miss (ap (λ xs. x ∷ xs) (without_first-append cidr t route (rw miss at e) same))
]

lookup-set_if_absent :
    (name : String) (route : Route) (cache : Dict Route)
    → lookup name cache ≡ none
    → lookup name (set_if_absent name (some route) cache) ≡ some route
unfolding set_if_absent
lookup-set_if_absent name route cache e =
    rw (e, set_if_absent) (lookup-insert name name route cache ∙ rw (eq_refl name) refl)

module _ {W : Type 0} (d : Deps W) (b : IsBackoff d.backoff) (table : W → List Route)
    (keeps : KeepsTable d.cloud table) where
  -- The call answers no error, has added a route of the network at the end of the table, and has cached it
  -- for the node.
  abbrev pub Adds :
      String → String → ReconcileRoute W → Outcome (Option Error) × ReconcileRoute W → Type 0
  Adds cidr name r (answer, r') =
      (answer ≡ done none)
      × ((route : Route) × (table r'.world ≡ table r.world ++ route ∷ [])
          × (route.destination_cidr ≡ cidr)
          × (lookup name r'.node_cache ≡ some route)
          × (r'.config_routes ≡ r.config_routes))

  create_for_node-Adds :
      (id cidr : String) (node : Node) (r : ReconcileRoute W)
      → cached_route cidr (table r.world) ≡ none
      → lookup node.name r.node_cache ≡ none
      → Adds cidr node.name r (create_for_node d id cidr node r)
  unfolding create_for_node find_or_nil
  create_for_node-Adds id cidr node r e fresh =
      let (w1, route, made_it, t1, same, to) = keeps.adds id cidr r.world e in
      let (w2, found, t2) = keeps.finds cidr w1 in
      let here : cached_route cidr (table w1) ≡ some route =
        rw t1 (cached_route-append_new cidr (table r.world) route e same) in
      let created : create_route_for_instance d id cidr r.world ≡ (done (ok (some route)), w2) =
        create_route_for_instance-Creates d b id cidr
          (made made_it (rw (found, find_or_nil) (rw here refl))) in
      rw (created, create_for_node)
        (
          refl,
          (route, t2 ∙ t1, same, lookup-set_if_absent node.name route r.node_cache fresh, refl),
        )

  add_route_for_node-Adds :
      (cidr : String) (node : Node) (r : ReconcileRoute W)
      → cidr == "" ≡ false
      → get_node_instance_id node == "" ≡ false
      → cached_route cidr (table r.world) ≡ none
      → lookup node.name r.node_cache ≡ none
      → Adds cidr node.name r (add_route_for_node d cidr node [] r)
  unfolding find_route
  add_route_for_node-Adds cidr node r ne has_id e fresh =
      let (v, found, t) = keeps.finds cidr r.world in
      let missing : find_route d cidr [] r.world ≡ (done (ok none), v) =
        rw (ne, find_route) (rw e at found) in
      let (answered, (route, added, same, cached, on)) =
        create_for_node-Adds (get_node_instance_id node) cidr node (record r { world = v }) (rw t e)
          fresh in
      rw (add_missing d b table keeps cidr node [] r v has_id missing)
        (answered, (route, rw t at added, same, cached, on))

  module _ (leaves : LeavesTable d.kube table) (laws : AggregateLaws d.libs) where
    -- As `Adds`, whatever the call answers.
    abbrev AddsWith :
        String → String → ReconcileRoute W → Outcome (Option Error) × ReconcileRoute W → Type 0
    AddsWith cidr name r out =
        (answer : Option Error) × (r' : ReconcileRoute W) × (route : Route) × (out
          ≡ (done answer, r'))
        × (table r'.world ≡ table r.world ++ route ∷ [])
        × (route.destination_cidr ≡ cidr)
        × (lookup name r'.node_cache ≡ some route)
        × (r'.config_routes ≡ r.config_routes)

    sync_cloud_route-Adds :
        (node : Node) (cidr : String) (r : ReconcileRoute W)
        → Wants d node cidr
        → cached_route cidr (table r.world) ≡ none
        → lookup node.name r.node_cache ≡ none
        → AddsWith cidr node.name r (sync_cloud_route d node r)
    unfolding sync_cloud_route
    sync_cloud_route-Adds node cidr r (needs, (net, spec), ne, has_id) e fresh =
        let (answered, (route, added, same, cached, on)) =
          add_route_for_node-Adds cidr node r ne has_id e fresh in
        let after = (add_route_for_node d cidr node [] r).1 in
        let (answer, v, marked, t) =
          update_networking_condition-Leaves d.kube table leaves node true after.world in
        let returned : add_route_for_node d cidr node [] r ≡ (done none, after) =
          ap (λ a. (a, after)) answered in
        (
          answer,
          record after { world = v },
          route,
          rw (needs, sync_cloud_route)
              (rw spec (rw ne (rw returned (rw laws.nil_only (rw marked refl))))),
          t ∙ added,
          same,
          cached,
          on,
        )

    reconcile-Adds :
        (cidr : String) (node : Node) (w : W) (r : ReconcileRoute W)
        → r.config_routes ≡ true
        → d.kube.get_node node.name r.world ≡ (done (ok node), w)
        → Wants d node cidr
        → cached_route cidr (table r.world) ≡ none
        → lookup node.name r.node_cache ≡ none
        → Adds cidr node.name r (reconcile d node.name r)
    reconcile-Adds cidr node w r on got wants e fresh =
        let t =
          Leaves-table table (d.kube.get_node node.name) (ok node) r.world w
            (leaves.get_node node.name) got in
        let (answer, r', route, synced, added, same, cached, on') =
          sync_cloud_route-Adds node cidr (record r { world = w }) wants (rw t e) fresh in
        let (r'', ended, world, cache, on'') =
          reconcile_present d b table keeps leaves laws node.name node w r r' answer on got
            synced in
        rw ended (
          refl,
          (
            route,
            ap table world ∙ rw t at added,
            same,
            ap (lookup node.name) cache ∙ cached,
            on'' ∙ on',
          ),
        )

    -- Suppose that the cloud keeps a table of routes, that the backoff and the aggregate behave as
    -- documented, that the API server answers and its calls leave the table alone, that the table
    -- has no route of the network of a node that wants one, that the node is not in the cache, and
    -- that the sync of routes is on. Reconcile of the node, and Reconcile again once the API
    -- server says that the node is gone, with the table in between as the first left it, answer no
    -- error, and leave the table as it was at first and the node out of the cache.
    pub reconcile_life :
        (cidr : String) (node : Node) (x : Error) (w u v : W) (r : ReconcileRoute W)
        → r.config_routes ≡ true
        → d.kube.get_node node.name r.world ≡ (done (ok node), w)
        → Wants d node cidr
        → cached_route cidr (table r.world) ≡ none
        → lookup node.name r.node_cache ≡ none
        → table u ≡ table (reconcile d node.name r).1.world
        → d.kube.get_node node.name u ≡ (done (err x), v)
        → is_not_found x ≡ true
        → let (answer, r1) = reconcile d node.name r in
          let (answer', r2) = reconcile d node.name (record r1 { world = u }) in
          (answer ≡ done none)
          × (answer' ≡ done none)
          × (table r2.world ≡ table r.world)
          × (lookup node.name r2.node_cache ≡ none)
    reconcile_life cidr node x w u v r on got wants e fresh unchanged gone nf =
        let (answered, (route, added, same, cached, on')) =
          reconcile-Adds cidr node w r on got wants e fresh in
        let r1 = (reconcile d node.name r).1 in
        let (z, deleted, t) = keeps.deletes route.destination_cidr v in
        let t' =
          Leaves-table table (d.kube.get_node node.name) (err x) u v (leaves.get_node node.name)
            gone in
        let (answered', world, events, others) =
          gone_deletes d node.name (record r1 { world = u }) laws x v z route (on' ∙ on) gone nf
            cached deleted in
        (
          answered,
          answered',
          ap table world
              ∙ (t
                  ∙ rw (t', unchanged, added, same)
                      (without_first-append cidr (table r.world) route e same)),
          others node.name ∙ rw (eq_refl node.name) refl,
        )
