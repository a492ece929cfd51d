-- ===== src/Route/Nodes.antt =====
-- What the controller reads off a node: `needSyncRoute`, `getIPv4RouteForNode`, `getNodeInstanceId`
-- and `NodeList` of manager.go, and the event filter of predicate.go.
use vpc_route_controller.Common.{
  ℕ, String, Bool, true, false, not, Option, none, some, List, [], ◌∷◌, ◌++◌, ◌==◌, ◌&&◌, is_some,
  if◌then◌else◌, concat, Action, Result, ok, err, plain, pure, ◌>>=◌, nat_eq, length,
}
use vpc_route_controller.Kube.{
  Node, NodeCondition, KubeClient, annotation, find_condition, has_exclude_label,
}
use vpc_route_controller.Route.State.{IpNet, Libs}

abbrev pub node_ready : String
node_ready = "Ready"

abbrev pub condition_unknown : String
condition_unknown = "Unknown"

abbrev pub instance_uuid_key : String
instance_uuid_key = "appengine.sdns.ksyun.com/instance-uuid"

abbrev pub instance_id_key : String
instance_id_key = "kce.sdns.ksyun.com/instanceId"

abbrev has_unknown : Option (ℕ × NodeCondition) → Bool
has_unknown none = false
has_unknown (some (i, c)) = c.status == condition_unknown

-- `needSyncRoute`
unfoldable pub need_sync_route : Node → Bool
need_sync_route node =
    if has_exclude_label node
    then false
    else if has_unknown (find_condition node.conditions node_ready)
    then false
    else if is_some node.deletion_timestamp
    then false
    else true

-- `getNodeInstanceId`
unfoldable pub get_node_instance_id : Node → String
get_node_instance_id node = elim (annotation node instance_uuid_key) [
  | some id ↦ id
  | none ↦ elim (annotation node instance_id_key) [
    | some id ↦ id
    | none ↦ if node.provider_id == "" then "" else node.provider_id
  ]
]

module _ (libs : Libs) where
  -- The loop of `getIPv4RouteForNode`, on the network and the text found so far.
  unfoldable pub pod_network_from :
      List String → Option IpNet → String → Result (Option IpNet × String)
  pod_network_from [] net text = ok (net, text)
  pod_network_from (cidr ∷ cidrs) net text =
      let skip = pod_network_from cidrs net text in
      if cidr == "" then skip else elim (libs.parse_cidr cidr) [
        | err e ↦ err (plain (concat ("invalid pod cidr on node spec: " ∷ cidr ∷ [])))
        | ok found ↦
            let later = pod_network_from cidrs (some found) (libs.ip_net_string found) in
            if nat_eq (length found.mask) 4
            then ok (some found, libs.ip_net_string found)
            else later
      ]

  -- `getIPv4RouteForNode`
  unfoldable pub get_ipv4_route_for_node : Node → Result (Option IpNet × String)
  unfolding pod_network_from
  get_ipv4_route_for_node node = pod_network_from (node.pod_cidrs ++ node.pod_cidr ∷ []) none ""

unfoldable pub without_excluded : List Node → List Node
without_excluded [] = []
without_excluded (n ∷ ns) =
    let rest = without_excluded ns in if has_exclude_label n then rest else n ∷ rest

-- `NodeList`
unfoldable pub node_list : {W : Type 0} → KubeClient W → Action W (Result (List Node))
unfolding without_excluded
node_list kube = do
  got ← kube.list_nodes
  elim got [ err e ↦ pure (err e) | ok nodes ↦ pure (ok (without_excluded nodes)) ]

unfoldable pub strings_eq : List String → List String → Bool
strings_eq [] [] = true
strings_eq [] (y ∷ ys) = false
strings_eq (x ∷ xs) [] = false
strings_eq (x ∷ xs) (y ∷ ys) = x == y && strings_eq xs ys

-- The tests of `Update` that come after those of the annotations. A nil and an empty list of pod
-- networks, which `DeepEqual` tells apart, are one list here.
unfoldable pub spec_changed : Node → Node → Bool
unfolding strings_eq
spec_changed old_node new_node =
    if not (old_node.uid == new_node.uid)
    then true
    else if not (old_node.pod_cidr == new_node.pod_cidr)
    then true
    else if not (old_node.provider_id == new_node.provider_id)
    then true
    else if not (strings_eq old_node.pod_cidrs new_node.pod_cidrs)
    then true
    else false

-- `predicateForNodeEvent.Update` on two nodes, with `Cfg.InstanceIdFrom`.
unfoldable pub update_predicate : String → Node → Node → Bool
unfolding spec_changed
update_predicate instance_id_from old_node new_node =
    let had_uuid = is_some (annotation old_node instance_uuid_key) in
    let has_uuid = is_some (annotation new_node instance_uuid_key) in
    let had_id = is_some (annotation old_node instance_id_key) in
    let has_id = is_some (annotation new_node instance_id_key) in
    if instance_id_from == "annotation"
    then (if not has_uuid && not has_id
        then false
        else if not had_uuid && has_uuid
        then true
        else if not had_id && has_id
        then true
        else spec_changed old_node new_node)
    else spec_changed old_node new_node
