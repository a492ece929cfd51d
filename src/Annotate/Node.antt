-- ===== src/Annotate/Node.antt =====
-- pkg/annotation/node.go and env.go, and `Run` of cmd/annotation/main.go, without logs.
use vpc_route_controller.Common.{
  String, Bool, true, false, Option, none, some, [], ◌∷◌, ◌==◌, nat_eq, if◌then◌else◌, concat,
  is_some, insert, Action, Result, ok, err, Error, plain, pure, ◌>>=◌,
}
use vpc_route_controller.Kube.{Node, annotation}
use vpc_route_controller.Http.Kop.{HttpResponse}

abbrev pub kce1_uuid_key : String
kce1_uuid_key = "appengine.sdns.ksyun.com/instance-uuid"

abbrev pub kce2_uuid_key : String
kce2_uuid_key = "kce.sdns.ksyun.com/instanceId"

abbrev pub kce1_zone_key : String
kce1_zone_key = "appengine.sdns.ksyun.com/zone"

abbrev pub kce2_zone_key : String
kce2_zone_key = "kce.sdns.ksyun.com/zone"

-- The environment, the API server, and the metadata service.
pub record Outside (W : Type 0) : Type 0 where
  pub getenv : String → Action W String
  pub new_controller : Action W (Option Error)
  pub get_node : String → Action W (Result Node)
  pub update_node : Node → Action W (Result Node)
  pub http_get : String → Action W (Result HttpResponse)

-- `IsExistedInstanceUUIDKey`
unfoldable pub is_existed_instance_uuid_key : Node → Bool
is_existed_instance_uuid_key node =
    if is_some (annotation node kce1_uuid_key)
    then true
    else if is_some (annotation node kce2_uuid_key)
    then true
    else false

-- `IsExistedZoneKey`
unfoldable pub is_existed_zone_key : Node → Bool
is_existed_zone_key node =
    if is_some (annotation node kce1_zone_key)
    then true
    else if is_some (annotation node kce2_zone_key)
    then true
    else false

-- `setAnnotation`; a nil map is made first.
unfoldable pub set_annotation : Node → String → String → Node
set_annotation node key value = record node {
  annotations = some (insert key value (elim node.annotations [ none ↦ [] | some m ↦ m ]));
}

-- `SetInstanceUUID`
abbrev pub set_instance_uuid : Node → String → Node
set_instance_uuid node id = set_annotation node kce2_uuid_key id

-- `SetZone`
abbrev pub set_zone : Node → String → Node
set_zone node zone = set_annotation node kce2_zone_key zone

abbrev metadata_url : String
metadata_url = "http://11.255.255.100:8775/latest/meta-data/"

abbrev read_metadata : String → HttpResponse → Result String
read_metadata path response = elim response.body [
  | err e ↦ err e
  | ok text ↦
      if nat_eq response.status_code 200
      then ok text
      else err (
          plain (
            concat (
              "Failed to obtain from metadata interface, accress path: " ∷ metadata_url ∷ path
              ∷ ", return: " ∷ text ∷ " " ∷ [])))
]

module _ {W : Type 0} (o : Outside W) where
  -- `getMetadata`
  unfoldable pub get_metadata : String → Action W (Result String)
  get_metadata path = do
    got ← o.http_get (concat (metadata_url ∷ path ∷ []))
    elim got [ err e ↦ pure (err e) | ok response ↦ pure (read_metadata path response) ]

  -- `EnsureNodeInstanceId` and `EnsureNodeZone`, which differ in the test, the path and the setter.
  unfoldable pub ensure :
      (Node → Bool) → String → (Node → String → Node) → String → Action W (Option Error)
  ensure existed path setter node_name = do
    got ← o.get_node node_name
    elim got [
      | err e ↦ pure (some e)
      | ok node ↦ if existed node then pure none else (do
        value ← get_metadata path
        elim value [
          | err e ↦ pure (some e)
          | ok text ↦ do
            updated ← o.update_node (setter node text)
            elim updated [ err e ↦ pure (some e) | ok n ↦ pure none ]
        ])
    ]

  -- `EnsureNodeInstanceId`
  unfoldable pub ensure_node_instance_id : String → Action W (Option Error)
  unfolding ensure
  ensure_node_instance_id = ensure is_existed_instance_uuid_key "instance-id" set_instance_uuid

  -- `EnsureNodeZone`
  unfoldable pub ensure_node_zone : String → Action W (Option Error)
  unfolding ensure
  ensure_node_zone = ensure is_existed_zone_key "placement/zone" set_zone

  -- `GetNodeName`
  unfoldable pub get_node_name : Action W (Result String)
  get_node_name = do
    name ← o.getenv "NODE_NAME"
    if name == ""
        then pure (
            err (
              plain
                "unable to get the name of the node deployed by the pod, check whether the downward api in the deployment file is used incorrectly, env NODE_NAME lack"))
        else pure (ok name)

  -- What `Run` does with a node name and a controller: whether to stop, and an error that ends it.
  unfoldable pub ensure_both : String → Action W (Bool × Option Error)
  ensure_both name = do
    id_failure ← ensure_node_instance_id name
    elim id_failure [
      | some e ↦ pure (false, none)
      | none ↦ do
        zone_failure ← ensure_node_zone name
        elim zone_failure [ some e ↦ pure (false, none) | none ↦ pure (true, none) ]
    ]

  -- `Run`
  unfoldable pub run : Action W (Bool × Option Error)
  unfolding get_node_name ensure_both
  run = do
    named ← get_node_name
    elim named [
      | err e ↦ pure (false, some e)
      | ok name ↦ do
        failure ← o.new_controller
        elim failure [ some e ↦ pure (false, some e) | none ↦ ensure_both name ]
    ]
