-- ===== src/Route/Answers.antt =====
-- What `Reconcile` and `syncCloudRoute` answer for a node that exists.
use vpc_route_controller.Common.{
  String, Bool, true, false, Option, none, some, [], ◌∷◌, ◌++◌, ◌≡◌, refl, ◌==◌, ◌⊎◌, concat, done,
  panicked, ok, err, Error, arith, inl, inr,
}
use vpc_route_controller.Kube.{Node}
use vpc_route_controller.Route.State.{
  ReconcileRoute, Deps, IpNet, AggregateLaws, warning, get_log_message,
}
use vpc_route_controller.Route.Nodes.{
  need_sync_route, get_ipv4_route_for_node, get_node_instance_id,
}
use vpc_route_controller.Route.Calls.{find_route}
use vpc_route_controller.Route.Condition.{update_networking_condition}
use vpc_route_controller.Route.Reconcile.{add_route_for_node, sync_cloud_route, reconcile}

abbrev is_none : Option Error → Bool
is_none none = true
is_none (some e) = false

module _ {W : Type 0} (d : Deps W) (r : ReconcileRoute W) where
  -- For a node that the API server returns, Reconcile answers no error, or panics: the request is
  -- never queued again.
  pub existing_not_requeued :
      (name : String) (node : Node) (w : W)
      → d.kube.get_node name r.world ≡ (done (ok node), w)
      → ((reconcile d name r).0 ≡ done none) ⊎ ((reconcile d name r).0 ≡ panicked)
  unfolding reconcile
  existing_not_requeued name node w found = ground arith

module _ {W : Type 0} (d : Deps W) (laws : AggregateLaws d.libs) (r : ReconcileRoute W) where
  find_uncached :
      (cidr : String) (w : W)
      → cidr == "" ≡ false
      → find_route d cidr [] w ≡ d.cloud.find_route cidr w
  unfolding find_route
  find_uncached cidr w ne = rw (ne, find_route)

  -- For an aggregate that behaves as documented: when a node needs its route and has an instance
  -- id and a pod network, the look-up of its route fails and updateNetworkingCondition returns,
  -- syncCloudRoute records an event and marks the node reachable, without a call of CreateRoute,
  -- and answers what the marking answers.
  pub lookup_failure_marks_reachable :
      (node : Node) (net : Option IpNet) (cidr : String) (e : Error) (answer : Option Error)
      (w1 w2 : W)
      → need_sync_route node ≡ true
      → get_ipv4_route_for_node d.libs node ≡ ok (net, cidr)
      → cidr == "" ≡ false
      → get_node_instance_id node == "" ≡ false
      → d.cloud.find_route cidr r.world ≡ (done (err e), w1)
      → update_networking_condition d.kube node true w1 ≡ (done answer, w2)
      → sync_cloud_route d node r ≡ (
        done answer,
        record r {
          events =
              r.events
              ++ record {
                node_name = node.name;
                uid = get_node_instance_id node;
                severity = warning;
                reason = "DescriberRouteFailed";
                text = concat (
                    "Describe Route Failed for "
                    ∷ cidr
                    ∷ " reason: "
                    ∷ get_log_message d.libs e
                    ∷ []);
              }
                ∷ [];
          world = w2;
        },
      )
  unfolding sync_cloud_route add_route_for_node
  lookup_failure_marks_reachable node net cidr e answer w1 w2 needs spec ne has_id fails marked =
      rw (needs, sync_cloud_route)
        (rw spec (
          rw ne (
            rw (has_id, add_route_for_node)
              (rw (find_uncached cidr r.world ne) (rw fails (rw laws.nil_only (rw marked)))))))

  -- For an aggregate that behaves as documented, a node that needs its route and has a pod
  -- network, and where addRouteForNode and updateNetworkingCondition return: syncCloudRoute marks
  -- the node reachable and answers what the marking answers when addRouteForNode succeeded, and
  -- marks it unreachable and answers the aggregate of the error, whatever the marking answers,
  -- when it failed.
  pub sync_cloud_route_marks :
      (node : Node) (net : Option IpNet) (cidr : String) (failure answer : Option Error)
      (after : ReconcileRoute W) (w : W)
      → need_sync_route node ≡ true
      → get_ipv4_route_for_node d.libs node ≡ ok (net, cidr)
      → cidr == "" ≡ false
      → add_route_for_node d cidr node [] r ≡ (done failure, after)
      → update_networking_condition d.kube node (is_none failure) after.world ≡ (done answer, w)
      → ((failure ≡ none) × (sync_cloud_route d node r ≡ (done answer, record after { world = w })))
        ⊎ ((x : Error) × (e : Error) × (failure ≡ some x)
            × (d.libs.new_aggregate (some x ∷ []) ≡ some e)
            × (sync_cloud_route d node r ≡ (done (some e), record after { world = w })))
  unfolding sync_cloud_route
  sync_cloud_route_marks node net cidr none answer after w needs spec ne added marked = inl (
    refl,
    rw (needs, sync_cloud_route) (rw spec (rw ne (rw added (rw laws.nil_only (rw marked))))),
  )
  sync_cloud_route_marks node net cidr (some x) answer after w needs spec ne added marked =
      let (e, one) = laws.one x in
      inr (
        x,
        e,
        refl,
        one,
        rw (needs, sync_cloud_route) (rw spec (rw ne (rw added (rw one (rw marked))))),
      )
