-- ===== src/Route/Tests/Composed.antt =====
-- Theorems about the controller over package ksyun, at the node of the parent module and a service whose
-- world is its entries.
use vpc_route_controller.Common.{
  String, true, false, none, List, [], ◌∷◌, ◌≡◌, refl, All, done, ok, Dict,
}
use vpc_route_controller.Kube.{KubeClient}
use vpc_route_controller.Route.State.{Route, ReconcileRoute, Deps}
use vpc_route_controller.Route.Reconcile.{reconcile_for_cluster}
use vpc_route_controller.Route.Table.{KeepsTable, LeavesTable, Grows, specific}
use vpc_route_controller.Route.Tests.{node, libs, backoff, is_backoff}
use vpc_route_controller.Ksyun.Routes.{ksyun_cloud}
use vpc_route_controller.Ksyun.Cloud.{table, ksyun_cloud-KeepsTable}
use vpc_route_controller.Ksyun.Composed.{
  over_ksyun, HasEntries, routes, reconcile_for_cluster-HasEntries,
}
use vpc_route_controller.Ksyun.Tests.Service.{entries, service, conf}
use vpc_route_controller.Ksyun.Tests.Kept.{can_send, keeps_entries}

ksyun_cloud-KeepsTable_example :
    KeepsTable (ksyun_cloud service conf) (table service conf false entries can_send keeps_entries)
ksyun_cloud-KeepsTable_example =
    ksyun_cloud-KeepsTable service conf false entries can_send keeps_entries

abbrev kube : KubeClient (Dict String)
kube = record {
  get_node = λ name w. (done (ok node), w);
  list_nodes = λ w. (done (ok (node ∷ [])), w);
  patch = λ n bytes w. (done none, w);
  status_patch = λ n bytes w. (done none, w);
  now = λ w. (done 7, w);
  marshal = λ n. ok n.name;
  two_way_merge_patch = λ a b. ok "{status}";
}

leaves : LeavesTable kube (table service conf false entries can_send keeps_entries)
leaves = record {
  get_node = λ name w. (ok node, w, refl, refl);
  list_nodes = λ w. (ok (node ∷ []), w, refl, refl);
  patch = λ n bytes w. (none, w, refl, refl);
  status_patch = λ n bytes w. (none, w, refl, refl);
  now = λ w. (7, w, refl, refl);
}

abbrev deps : Deps (Dict String)
deps = record { kube = kube; cloud = ksyun_cloud service conf; libs = libs; backoff = backoff }

abbrev start : ReconcileRoute (Dict String)
start = record { config_routes = true; node_cache = []; events = []; world = [] }

abbrev start_routes : Dict String → List Route
start_routes = routes deps is_backoff service conf false entries can_send keeps_entries leaves

reconcile_for_cluster-HasEntries_example :
    (r' : ReconcileRoute (Dict String)) × (reconcile_for_cluster
        (over_ksyun deps service conf)
        start
      ≡ (done tt, r'))
    × Grows (start_routes start.world) (start_routes r'.world)
    × All (HasEntries (over_ksyun deps service conf) entries r'.world) (node ∷ [])
unfolding specific
reconcile_for_cluster-HasEntries_example =
    reconcile_for_cluster-HasEntries deps is_backoff service conf false entries can_send
      keeps_entries leaves (node ∷ []) [] start refl tt
