-- ===== src/Annotate/Ensure.antt =====
-- What the annotation program writes, and that the controller reads it back.
use vpc_route_controller.Common.{
  String, Bool, true, false, none, some, [], ◌≡◌, refl, ◌==◌, ◌⊎◌, if◌then◌else◌, lookup,
  lookup-insert, done, panicked, ok, arith,
}
use vpc_route_controller.Kube.{Node, annotation}
use vpc_route_controller.Route.Nodes.{get_node_instance_id}
use vpc_route_controller.Annotate.Node.{
  Outside, is_existed_instance_uuid_key, set_annotation, set_instance_uuid, set_zone, kce1_uuid_key,
  kce2_uuid_key, kce2_zone_key, get_metadata, ensure, ensure_node_instance_id, get_node_name,
  ensure_both, run,
}

annotation-set_annotation :
    (node : Node) (key other value : String)
    → annotation (set_annotation node key value) other
      ≡ (if key == other then some value else annotation node other)
unfolding set_annotation lookup
annotation-set_annotation node key other value =
    elim node.annotations
      as (λ m. annotation (set_annotation (record node { annotations = m }) key value) other ≡ (
        if key == other then some value else annotation (record node { annotations = m }) other)) [
          | none ↦ lookup-insert key other value []
          | some m ↦ lookup-insert key other value m
        ]

-- On a node that has neither annotation of an instance id, getNodeInstanceId reads the id that
-- SetInstanceUUID wrote, also after SetZone.
pub get_node_instance_id-set_instance_uuid :
    (node : Node) (id zone : String)
    → is_existed_instance_uuid_key node ≡ false
    → get_node_instance_id (set_zone (set_instance_uuid node id) zone) ≡ id
unfolding get_node_instance_id is_existed_instance_uuid_key
get_node_instance_id-set_instance_uuid node id zone fresh = ground (
  arith,
  fresh,
  annotation-set_annotation (set_instance_uuid node id) kce2_zone_key kce1_uuid_key zone,
  annotation-set_annotation (set_instance_uuid node id) kce2_zone_key kce2_uuid_key zone,
  annotation-set_annotation node kce2_uuid_key kce1_uuid_key id,
  annotation-set_annotation node kce2_uuid_key kce2_uuid_key id,
)

existed-set_instance_uuid :
    (node : Node) (id : String) → is_existed_instance_uuid_key (set_instance_uuid node id) ≡ true
unfolding is_existed_instance_uuid_key
existed-set_instance_uuid node id =
    rw
      (
        annotation-set_annotation node kce2_uuid_key kce1_uuid_key id,
        annotation-set_annotation node kce2_uuid_key kce2_uuid_key id,
      )
      (ground arith)

module _ {W : Type 0} (o : Outside W) where
  -- EnsureNodeInstanceId on a node without an instance id makes one update with the id of the
  -- metadata service; when the API server then answers with the node as updated, a second call
  -- makes no update; both answer no error.
  pub ensure_node_instance_id_twice :
      (name id : String) (node stored : Node) (w w1 w2 w3 w4 : W)
      → o.get_node name w ≡ (done (ok node), w1)
      → is_existed_instance_uuid_key node ≡ false
      → get_metadata o "instance-id" w1 ≡ (done (ok id), w2)
      → o.update_node (set_instance_uuid node id) w2 ≡ (done (ok stored), w3)
      → o.get_node name w3 ≡ (done (ok (set_instance_uuid node id)), w4)
      → (ensure_node_instance_id o name w ≡ (done none, w3))
        × (ensure_node_instance_id o name w3 ≡ (done none, w4))
  unfolding ensure_node_instance_id
  ensure_node_instance_id_twice name id node stored w w1 w2 w3 w4 got fresh meta updated again = (
    rw (got, ensure) (rw fresh (rw meta (rw updated refl))),
    rw (again, ensure) (rw (existed-set_instance_uuid node id) refl),
  )

  -- Once the node's name is known and the controller is made, Run answers no error, or panics.
  pub run_goes_on :
      (name : String) (w w1 w2 : W)
      → get_node_name o w ≡ (done (ok name), w1)
      → o.new_controller w1 ≡ (done none, w2)
      → ((stop : Bool) × ((run o w).0 ≡ done (stop, none))) ⊎ ((run o w).0 ≡ panicked)
  unfolding run ensure_both
  run_goes_on name w w1 w2 named made = rw (named, run) (rw (made, run) (ground arith))
