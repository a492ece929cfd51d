-- ===== src/Annotate/Tests.antt =====
-- The annotation program before an API server with one node, which the world is.
use vpc_route_controller.Common.{false, none, some, [], ◌∷◌, ◌≡◌, refl, done, ok, lookup}
use vpc_route_controller.Kube.{Node}
use vpc_route_controller.Route.Nodes.{get_node_instance_id}
use vpc_route_controller.Annotate.Node.{
  Outside, is_existed_instance_uuid_key, set_instance_uuid, set_zone,
}
use vpc_route_controller.Annotate.Ensure.{get_node_instance_id-set_instance_uuid}

abbrev node : Node
node = record {
  name = "node-1";
  uid = "u-1";
  labels = [];
  annotations = some (("role", "worker") ∷ []);
  pod_cidr = "";
  pod_cidrs = [];
  provider_id = "";
  conditions = [];
  deletion_timestamp = none;
}

abbrev outside : Outside Node
outside = record {
  getenv = λ key w. (done "node-1", w);
  new_controller = λ w. (done none, w);
  get_node = λ name w. (done (ok w), w);
  update_node = λ n w. (done (ok n), n);
  http_get = λ url w. (done (ok (record { status_code = 200; body = ok "i-7" })), w);
}

fresh : is_existed_instance_uuid_key node ≡ false
unfolding is_existed_instance_uuid_key lookup
fresh = refl

get_node_instance_id-set_instance_uuid_example :
    get_node_instance_id (set_zone (set_instance_uuid node "i-7") "az-1") ≡ "i-7"
get_node_instance_id-set_instance_uuid_example =
    get_node_instance_id-set_instance_uuid node "i-7" "az-1" fresh
