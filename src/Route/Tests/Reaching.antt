-- ===== src/Route/Tests/Reaching.antt =====
-- Theorems about the controller before a cloud that keeps a table of routes, at the cluster of the
-- parent module and a cloud whose world is that table.
use vpc_route_controller.Common.{
  String, true, Option, none, some, List, [], ◌∷◌, ◌++◌, ◌≡◌, refl, ◌==◌, if◌then◌else◌, All,
  Outcome, done, ok, err, Error, Result, plain, contains, message, lookup,
}
use vpc_route_controller.Kube.{Node, KubeClient, find_condition, has_exclude_label}
use vpc_route_controller.Route.State.{Route, ReconcileRoute, Cloud, Deps}
use vpc_route_controller.Route.Nodes.{
  need_sync_route, get_ipv4_route_for_node, get_node_instance_id,
}
use vpc_route_controller.Route.Calls.{
  cached_route, same_route, find_route, create_route_for_instance,
}
use vpc_route_controller.Route.Condition.{update_networking_condition, already_set, update_retry}
use vpc_route_controller.Kube.Patch.{patch_m}
use vpc_route_controller.Route.Reconcile.{add_route_for_node, reconcile, reconcile_for_cluster}
use vpc_route_controller.Route.Table.{KeepsTable, LeavesTable, Grows, without_first, specific}
use vpc_route_controller.Route.Reach.{Wants, Reaches, reconcile-Reaches}
use vpc_route_controller.Route.Life.{reconcile_life}
use vpc_route_controller.Route.Rounds.{Served, reconcile_for_cluster-Served}
use vpc_route_controller.Route.Tests.{
  network_text, network, node, libs, laws, missing, backoff, is_backoff,
}

abbrev new_route : String → String → Route
new_route id cidr = record { name = "r"; destination_cidr = cidr; instance_id = id; route_id = "r" }

abbrev create_in : String → String → List Route → Option Route → Outcome (Option Error) × List Route
create_in id cidr table none = (done none, table ++ new_route id cidr ∷ [])
create_in id cidr table (some route) = (done (some (plain same_route)), table)

abbrev table_cloud : Cloud (List Route)
table_cloud = record {
  list_routes = λ w. (done (ok (specific w)), w);
  find_route = λ cidr w. (done (ok (cached_route cidr w)), w);
  create_route = λ id cidr w. create_in id cidr w (cached_route cidr w);
  delete_route = λ cidr w. (done none, without_first cidr w);
}

abbrev the_table : List Route → List Route
the_table w = w

keeps_table : KeepsTable table_cloud the_table
unfolding contains message
keeps_table = record {
  lists = λ w. (w, refl, refl);
  finds = λ cidr w. (w, refl, refl);
  adds =
      λ id cidr w e. (w ++ new_route id cidr ∷ [], new_route id cidr, rw e refl, refl, refl, refl);
  refuses = λ id cidr w route e. (w, plain same_route, rw e refl, refl, refl);
  deletes = λ cidr w. (without_first cidr w, refl, refl);
}

abbrev table_kube : KubeClient (List Route)
table_kube = record {
  get_node = λ name w. (done (if name == "node-1" then ok node else err missing), w);
  list_nodes = λ w. (done (ok (node ∷ [])), w);
  patch = λ n bytes w. (done none, w);
  status_patch = λ n bytes w. (done none, w);
  now = λ w. (done 7, w);
  marshal = λ n. ok n.name;
  two_way_merge_patch = λ a b. ok "{status}";
}

leaves_table : LeavesTable table_kube the_table
leaves_table = record {
  get_node = λ name w. ((if name == "node-1" then ok node else err missing), w, refl, refl);
  list_nodes = λ w. (ok (node ∷ []), w, refl, refl);
  patch = λ n bytes w. (none, w, refl, refl);
  status_patch = λ n bytes w. (none, w, refl, refl);
  now = λ w. (7, w, refl, refl);
}

abbrev table_deps : Deps (List Route)
table_deps = record { kube = table_kube; cloud = table_cloud; libs = libs; backoff = backoff }

abbrev start : ReconcileRoute (List Route)
start = record { config_routes = true; node_cache = []; events = []; world = [] }

node-Wants : Wants table_deps node network_text
unfolding lookup need_sync_route has_exclude_label find_condition get_ipv4_route_for_node
    get_node_instance_id
node-Wants = (refl, (some network, refl), refl, refl)

reconcile-Reaches_example :
    Reaches table_deps is_backoff the_table keeps_table leaves_table
      (get_node_instance_id node)
      network_text
      start
      (reconcile table_deps "node-1" start)
      none
reconcile-Reaches_example =
    reconcile-Reaches table_deps is_backoff the_table keeps_table leaves_table laws "node-1"
      network_text node [] start refl refl node-Wants

reconcile_for_cluster-Served_example :
    (r' : ReconcileRoute (List Route)) × (reconcile_for_cluster table_deps start ≡ (done tt, r'))
    × Grows (the_table start.world) (the_table r'.world)
    × All (Served table_deps is_backoff the_table keeps_table leaves_table r'.world) (node ∷ [])
unfolding specific
reconcile_for_cluster-Served_example =
    reconcile_for_cluster-Served table_deps is_backoff the_table keeps_table leaves_table
      (node ∷ []) [] start refl tt

-- The node is there as long as the table is empty.
abbrev present : List Route → Result Node
present [] = ok node
present (route ∷ routes) = err missing

abbrev leaving_kube : KubeClient (List Route)
leaving_kube = record table_kube { get_node = λ name w. (done (present w), w) }

leaving_leaves : LeavesTable leaving_kube the_table
leaving_leaves = record {
  get_node = λ name w. (present w, w, refl, refl);
  list_nodes = λ w. (ok (node ∷ []), w, refl, refl);
  patch = λ n bytes w. (none, w, refl, refl);
  status_patch = λ n bytes w. (none, w, refl, refl);
  now = λ w. (7, w, refl, refl);
}

abbrev leaving_deps : Deps (List Route)
leaving_deps = record table_deps { kube = leaving_kube }

abbrev routed : List Route
routed = new_route "i-1" network_text ∷ []

leaving-Wants : Wants leaving_deps node network_text
unfolding lookup need_sync_route has_exclude_label find_condition get_ipv4_route_for_node
    get_node_instance_id
leaving-Wants = (refl, (some network, refl), refl, refl)

makes_route : routed ≡ (reconcile leaving_deps "node-1" start).1.world
unfolding reconcile need_sync_route has_exclude_label lookup find_condition get_ipv4_route_for_node
    add_route_for_node get_node_instance_id find_route create_route_for_instance backoff
    update_networking_condition already_set update_retry patch_m
makes_route = refl

reconcile_life_example :
    let (answer, r1) = reconcile leaving_deps "node-1" start in
    let (answer', r2) = reconcile leaving_deps "node-1" (record r1 { world = routed }) in
    (answer ≡ done none)
    × (answer' ≡ done none)
    × (the_table r2.world ≡ [])
    × (lookup "node-1" r2.node_cache ≡ none)
unfolding cached_route lookup
reconcile_life_example =
    reconcile_life leaving_deps is_backoff the_table keeps_table leaving_leaves laws network_text
      node missing [] routed routed start refl refl leaving-Wants refl refl makes_route refl refl
