-- ===== src/Route/Resync.antt =====
-- `syncRoutes` goes on with the list of routes that it read before it deleted the conflicting ones.
use mathlib.Core.Option.{some-injective, none-ne-some}
use vpc_route_controller.Common.{
  String, true, false, Option, none, some, List, [], ◌∷◌, ◌≡◌, ◌==◌, done, ok, Error, Bool-cases,
  inl, inr, eq_refl,
}
use vpc_route_controller.Kube.{Node}
use vpc_route_controller.Route.State.{Route, ReconcileRoute, Deps, IpNet}
use vpc_route_controller.Route.Nodes.{
  need_sync_route, get_ipv4_route_for_node, get_node_instance_id,
}
use vpc_route_controller.Route.Cidr.{contains_route, conflict_with_node, conflict_with_nodes}
use vpc_route_controller.Route.Calls.{find_route, cached_route, delete_route_for_instance}
use vpc_route_controller.Route.Condition.{update_networking_condition}
use vpc_route_controller.Route.Reconcile.{
  set_if_absent, add_route_for_node, sync_node, drop_conflicts, sync_routes,
}

-- The route that is found in a list is of the wanted network.
pub cached_route-cidr :
    (cidr : String) (routes : List Route) (route : Route)
    → cached_route cidr routes ≡ some route
    → route.destination_cidr == cidr ≡ true
unfolding cached_route
cached_route-cidr cidr [] route e = cc
cached_route-cidr cidr (x ∷ routes) route e = elim (Bool-cases (x.destination_cidr == cidr)) [
  | inl hit ↦ rw (some-injective x route (rw hit at e)) at hit
  | inr miss ↦ cached_route-cidr cidr routes route (rw miss at e)
]

module _ {W : Type 0} (d : Deps W) where
  find_route_cached :
      (cidr : String) (routes : List Route) (route : Route) (w : W)
      → cidr == "" ≡ false
      → cached_route cidr routes ≡ some route
      → find_route d cidr routes w ≡ (done (ok (some route)), w)
  unfolding find_route
  find_route_cached cidr [] route w ne e = absurd (none-ne-some route e)
  find_route_cached cidr (x ∷ routes) route w ne e = rw (ne, find_route) (rw e)

  add_listed :
      (cidr : String) (node : Node) (routes : List Route) (route : Route) (r : ReconcileRoute W)
      → cidr == "" ≡ false
      → get_node_instance_id node == "" ≡ false
      → cached_route cidr routes ≡ some route
      → add_route_for_node d cidr node routes r
        ≡ (done none, record r { node_cache = set_if_absent node.name (some route) r.node_cache })
  unfolding add_route_for_node
  add_listed cidr node routes route r ne has_id listed =
      rw (has_id, add_route_for_node)
        (rw (find_route_cached cidr routes route r.world ne listed)
          (rw (cached_route-cidr cidr routes route listed)))

  -- For a node that needs its route, has an instance id and a pod network, and whose network is on
  -- the list of routes, where updateNetworkingCondition returns: a round of the second loop of
  -- syncRoutes makes no call of the cloud; it caches the listed route unless the node had one, and
  -- marks the node reachable.
  pub sync_node_listed :
      (node : Node) (routes : List Route) (route : Route) (net : Option IpNet) (cidr : String)
      (answer : Option Error) (w : W) (r : ReconcileRoute W)
      → need_sync_route node ≡ true
      → get_ipv4_route_for_node d.libs node ≡ ok (net, cidr)
      → cidr == "" ≡ false
      → get_node_instance_id node == "" ≡ false
      → cached_route cidr routes ≡ some route
      → update_networking_condition d.kube node true r.world ≡ (done answer, w)
      → sync_node d node routes r ≡ (
        done tt,
        record r { node_cache = set_if_absent node.name (some route) r.node_cache; world = w },
      )
  unfolding sync_node
  sync_node_listed node routes route net cidr answer w r needs spec ne has_id listed marked =
      rw (needs, sync_node)
        (rw spec (rw ne (rw (add_listed cidr node routes route r ne has_id listed) (rw marked))))

  -- Suppose that the cloud lists one route, that the one node needs its route and has an instance
  -- id, that the route is of the node's network but goes to another instance, that its deletion
  -- succeeds and that updateNetworkingCondition returns. Then syncRoutes creates no route in its
  -- place: it still caches the deleted route for the node, unless the node had one, and marks the
  -- node reachable.
  pub conflict_not_recreated :
      (node : Node) (route : Route) (net cidr : IpNet) (answer : Option Error) (w1 w2 w3 : W)
      (r : ReconcileRoute W)
      → d.cloud.list_routes r.world ≡ (done (ok (route ∷ [])), w1)
      → d.cloud.delete_route route.destination_cidr w1 ≡ (done none, w2)
      → update_networking_condition d.kube node true w2 ≡ (done answer, w3)
      → need_sync_route node ≡ true
      → get_ipv4_route_for_node d.libs node ≡ ok (some net, route.destination_cidr)
      → d.libs.ip_net_string net ≡ route.destination_cidr
      → d.libs.parse_cidr route.destination_cidr ≡ ok cidr
      → route.destination_cidr == "" ≡ false
      → get_node_instance_id node == "" ≡ false
      → route.instance_id == get_node_instance_id node ≡ false
      → sync_routes d (node ∷ []) r ≡ (
        done none,
        record r { node_cache = set_if_absent node.name (some route) r.node_cache; world = w3 },
      )
  unfolding sync_routes delete_route_for_instance
  conflict_not_recreated node route net cidr answer w1 w2 w3 r lists deletes marked needs spec text
        parsed ne has_id other =
      rw (lists, sync_routes)
        (rw (conflicts, drop_conflicts)
          (rw (deletes, delete_route_for_instance)
            (rw (
              sync_node_listed node (route ∷ []) route (some net) route.destination_cidr answer w3
                (record r { world = w2 }) needs spec ne has_id listed marked))))
    where
      same : (d.libs.ip_net_string net == route.destination_cidr) ≡ true
      same = rw text (eq_refl route.destination_cidr)

      listed : cached_route route.destination_cidr (route ∷ []) ≡ some route
      listed = unfold cached_route in rw (eq_refl route.destination_cidr)

      conflicts : conflict_with_nodes d.libs route (node ∷ []) ≡ done true
      conflicts =
          unfold conflict_with_nodes conflict_with_node contains_route in
          rw (spec, conflict_with_nodes, conflict_with_node)
            (rw (parsed, contains_route) (rw same (rw other)))
