-- ===== src/Route/Tests.antt =====
-- A cluster of one node before a cloud of one route, on which the children try the theorems about the
-- controller.
mod Requests
mod Syncs
mod Checks
mod Reaching
mod Composed
use mathlib.Core.Path.{Path}
use mathlib.Core.Bool.{false≢true}
use vpc_route_controller.Route.Conflicts.{
  Conflict, SomeConflict, conflict_with_nodes_sound, conflict_with_nodes_complete,
}
use vpc_route_controller.Route.Cidr.{contains_route, conflict_with_node, conflict_with_nodes}
use vpc_route_controller.Route.Filter.{
  SameSpec, HasKey, update_predicate_iff, update_predicate-annotation_iff,
}
use vpc_route_controller.Common.{
  is_some, ◌↔◌, All, ℕ, zero, suc, ◌+◌, ◌≤◌, String, true, false, Option, none, some, List, [], ◌∷◌,
  ◌≡◌, refl, ◌==◌, ◌⊎◌, if◌then◌else◌, concat, lookup, Dict, Outcome, done, panicked, Result, ok,
  err, Error, plain, status_error, not_found, inl, Returns, length, insert, eq_iff, contains,
  message,
}
use vpc_route_controller.Kube.{annotation, Node, KubeClient, find_condition, has_exclude_label}
use vpc_route_controller.Kube.Patch.{patch_m}
use vpc_route_controller.Route.State.{
  Route, ReconcileRoute, Cloud, Deps, Libs, IpNet, AggregateLaws, Backoff, IsBackoff, next_step,
  warning, get_log_message,
}
use vpc_route_controller.Route.Nodes.{
  instance_uuid_key, instance_id_key, update_predicate, need_sync_route, get_ipv4_route_for_node,
  get_node_instance_id,
}
use vpc_route_controller.Route.Calls.{
  find_or_nil, create_route_for_instance, cached_route, create_steps, find_route,
}
use vpc_route_controller.Route.Condition.{
  set_conditions, update_networking_condition, already_set, update_retry, diff,
}
use vpc_route_controller.Route.Reconcile.{
  set_if_absent, sync_node, sync_routes, reconcile, sync_cloud_route, reconcile_for_cluster,
  add_route_for_node,
}
use vpc_route_controller.Route.Creation.{
  Creates, again, made, create_route_for_instance-Creates, create_route_for_instance-total,
}
use vpc_route_controller.Route.Deletion.{gone_deletes, gone_unknown}
use vpc_route_controller.Route.Resync.{sync_node_listed, conflict_not_recreated}
use vpc_route_controller.Route.Cache.{reconcile_for_cluster-keeps, reconcile-keeps}
use vpc_route_controller.Route.Answers.{
  existing_not_requeued, lookup_failure_marks_reachable, sync_cloud_route_marks,
}
use vpc_route_controller.Route.Marking.{written_is_settled, update_reads_at_most, counting}
use vpc_route_controller.Route.Selection.{get_ipv4_route_for_node_picks, ParsedFrom, NoIpv4}

abbrev pub network_text : String
network_text = "10.0.1.0/24"

abbrev pub network : IpNet
network = record { ip = 10 ∷ 0 ∷ 1 ∷ 0 ∷ []; mask = 255 ∷ 255 ∷ 255 ∷ 0 ∷ [] }

abbrev pub node : Node
node = record {
  name = "node-1";
  uid = "u-1";
  labels = [];
  annotations = none;
  pod_cidr = network_text;
  pod_cidrs = network_text ∷ [];
  provider_id = "i-1";
  conditions = [];
  deletion_timestamp = none;
}

-- The node after its condition was written.
abbrev pub marked_node : Node
marked_node = record node { conditions = set_conditions true 7 7 [] }

abbrev pub own_route : Route
own_route = record {
  name = "r-1";
  destination_cidr = network_text;
  instance_id = "i-1";
  route_id = "r-1";
}

abbrev pub foreign_route : Route
foreign_route = record own_route { instance_id = "i-9" }

abbrev pub first_error : List (Option Error) → Option Error
first_error [] = none
first_error (e ∷ es) = e

abbrev pub libs : Libs
libs = record {
  parse_cidr = λ s. ok network;
  ip_net_string = λ n. network_text;
  new_aggregate = first_error;
  message_submatch = λ s. [];
}

abbrev pub laws : AggregateLaws libs
laws = record { nothing = refl; nil_only = refl; one = λ e. (e, refl) }

abbrev pub missing : Error
missing = status_error not_found "nodes not found"

-- The node is there under its own name only. The world counts the calls that change it.
abbrev pub kube : KubeClient ℕ
kube = record {
  get_node = λ name w. (done (if name == "node-1" then ok node else err missing), w);
  list_nodes = λ w. (done (ok (node ∷ [])), w);
  patch = λ n bytes w. (done none, suc w);
  status_patch = λ n bytes w. (done none, suc w);
  now = λ w. (done 7, w);
  marshal = λ n. ok n.name;
  two_way_merge_patch = λ a b. ok "{status}";
}

-- The first creation fails, those after it succeed.
abbrev pub busy_once : ℕ → Outcome (Option Error) × ℕ
busy_once zero = (done (some (plain "busy")), 1)
busy_once (suc w) = (done none, suc (suc w))

abbrev pub cloud : Option Error → Result (Option Route) → Cloud ℕ
cloud deletion found = record {
  list_routes = λ w. (done (ok (foreign_route ∷ [])), w);
  find_route = λ cidr w. (done found, w);
  create_route = λ id cidr w. busy_once w;
  delete_route = λ cidr w. (done deletion, suc w);
}

abbrev pub tired : Error
tired = plain "timed out waiting for the condition"

unfoldable pub backoff : {W : Type 0} → Backoff W
backoff zero cond s = (done (some tired), s)
backoff (suc n) cond s = next_step tired (λ w. w) (backoff n cond) n (cond s)

unfoldable pub is_backoff : {W : Type 0} → IsBackoff {W = W} backoff
unfolding backoff
is_backoff = record { timed_out = tired; pause = λ w. w; attempt = λ n cond s. refl }

abbrev pub deps_of : Option Error → Result (Option Route) → Deps ℕ
deps_of deletion found = record {
  kube = kube;
  cloud = cloud deletion found;
  libs = libs;
  backoff = backoff;
}

abbrev pub deps : Deps ℕ
deps = deps_of none (ok (some own_route))

abbrev pub state : Dict Route → ReconcileRoute ℕ
state cache = record { config_routes = true; node_cache = cache; events = []; world = 0 }

abbrev pub gone_cache : Dict Route
gone_cache = ("node-2", own_route) ∷ ("node-3", foreign_route) ∷ []
