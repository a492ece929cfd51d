-- ===== src/Route/Tests/Checks.antt =====
-- Theorems about conditions, pod networks, conflicts and the event filter, at the cluster of the parent module.
use vpc_route_controller.Route.Conflicts.{
  Conflict, SomeConflict, conflict_with_nodes_sound, conflict_with_nodes_complete,
}
use vpc_route_controller.Route.Cidr.{contains_route, conflict_with_node, conflict_with_nodes}
use vpc_route_controller.Route.Filter.{SameSpec, HasKey, update_predicate-annotation_iff}
use vpc_route_controller.Common.{
  is_some, ◌↔◌, All, ◌+◌, ◌≤◌, true, false, none, [], ◌∷◌, ◌≡◌, refl, ◌⊎◌, done, length,
}
use vpc_route_controller.Kube.{annotation, Node}
use vpc_route_controller.Route.Nodes.{
  instance_uuid_key, instance_id_key, update_predicate, get_ipv4_route_for_node,
  get_node_instance_id,
}
use vpc_route_controller.Route.Condition.{update_networking_condition}
use vpc_route_controller.Route.Marking.{written_is_settled, update_reads_at_most, counting}
use vpc_route_controller.Route.Selection.{get_ipv4_route_for_node_picks, ParsedFrom, NoIpv4}
use vpc_route_controller.Route.Tests.{
  network_text, network, node, marked_node, own_route, foreign_route, libs, kube,
}

written_is_settled_example : update_networking_condition kube marked_node true 3 ≡ (done none, 3)
written_is_settled_example = written_is_settled kube marked_node true 7 7 [] 3 tt refl

update_reads_at_most_example :
    (update_networking_condition (counting kube) node true (0, 5)).1.1 ≤ 5 + 3
update_reads_at_most_example = update_reads_at_most kube true node 0 5

get_ipv4_route_for_node_picks_example :
    let cidrs = network_text ∷ network_text ∷ [] in
    ParsedFrom libs network cidrs
    × (network_text ≡ libs.ip_net_string network)
    × ((length network.mask ≡ 4) ⊎ NoIpv4 libs cidrs)
unfolding get_ipv4_route_for_node
get_ipv4_route_for_node_picks_example =
    get_ipv4_route_for_node_picks libs node network network_text refl

foreign_conflicts : conflict_with_nodes libs foreign_route (node ∷ []) ≡ done true
unfolding conflict_with_nodes conflict_with_node contains_route get_ipv4_route_for_node
    get_node_instance_id
foreign_conflicts = refl

own_fits : conflict_with_nodes libs own_route (node ∷ []) ≡ done false
unfolding conflict_with_nodes conflict_with_node contains_route get_ipv4_route_for_node
    get_node_instance_id
own_fits = refl

conflict_with_nodes_sound_example : SomeConflict libs foreign_route (node ∷ [])
conflict_with_nodes_sound_example =
    conflict_with_nodes_sound libs foreign_route (node ∷ []) foreign_conflicts

conflict_with_nodes_complete_example : All (λ (n : Node). Conflict libs own_route n → ⊥) (node ∷ [])
conflict_with_nodes_complete_example =
    conflict_with_nodes_complete libs own_route (node ∷ []) own_fits

abbrev moved_node : Node
moved_node = record node { provider_id = "i-2" }

update_predicate-annotation_iff_example :
    (update_predicate "annotation" node moved_node ≡ false) ↔ (
      ((is_some (annotation moved_node instance_uuid_key) ≡ false)
        × (is_some (annotation moved_node instance_id_key) ≡ false))
      ⊎ ((HasKey moved_node instance_uuid_key → HasKey node instance_uuid_key)
          × (HasKey moved_node instance_id_key → HasKey node instance_id_key)
          × SameSpec node moved_node))
update_predicate-annotation_iff_example = update_predicate-annotation_iff node moved_node
