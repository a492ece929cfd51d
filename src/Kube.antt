-- ===== src/Kube.antt =====
-- pkg/controller/helper/node_utils.go, and the parts of the Kubernetes API objects that the source
-- reads. Times are nanoseconds since the zero time of Go.
pub mod Conditions
pub mod Patch
mod Tests
use vpc_route_controller.Common.{
  ℕ, suc, String, Bool, true, false, Option, none, some, List, [], ◌∷◌, Dict, lookup, has_key,
  is_some, ltb, ◌==◌, ◌&&◌, if◌then◌else◌, Action, Result, Error, Outcome,
}

pub record NodeCondition : Type 0 where
  pub kind : String
  pub status : String
  pub heartbeat : ℕ
  pub transition : ℕ
  pub reason : String
  pub text : String

-- An annotation map may be nil, which is `none`.
pub record Node : Type 0 where
  pub name : String
  pub uid : String
  pub labels : Dict String
  pub annotations : Option (Dict String)
  pub pod_cidr : String
  pub pod_cidrs : List String
  pub provider_id : String
  pub conditions : List NodeCondition
  pub deletion_timestamp : Option ℕ

-- `v, ok := node.Annotations[k]`
abbrev pub annotation : Node → String → Option String
annotation node k = elim node.annotations [ none ↦ none | some m ↦ lookup k m ]

-- `&v1.NodeCondition{}`
abbrev pub blank_condition : NodeCondition
blank_condition = record {
  kind = "";
  status = "";
  heartbeat = 0;
  transition = 0;
  reason = "";
  text = "";
}

-- The API server as the source calls it, and what package json and strategicpatch make of nodes.
pub record KubeClient (W : Type 0) : Type 0 where
  pub get_node : String → Action W (Result Node)
  pub list_nodes : Action W (Result (List Node))
  pub patch : Node → String → Action W (Option Error)
  pub status_patch : Node → String → Action W (Option Error)
  pub now : Action W ℕ
  pub marshal : Node → Result String
  pub two_way_merge_patch : String → String → Result String

-- Whether a condition of the wanted type replaces the one found so far.
abbrev newer : Option (ℕ × NodeCondition) → NodeCondition → Bool
newer none c = true
newer (some (j, b)) c = ltb b.heartbeat c.heartbeat

find_from :
    String → ℕ → List NodeCondition → Option (ℕ × NodeCondition) → Option (ℕ × NodeCondition)
find_from kind i [] best = best
find_from kind i (c ∷ cs) best =
    find_from kind (suc i) cs (if c.kind == kind && newer best c then some (i, c) else best)

-- `FindCondition`; the pointer into the slice is the index. The source's blank condition with
-- `false` is `none`.
unfoldable pub find_condition : List NodeCondition → String → Option (ℕ × NodeCondition)
unfolding find_from
find_condition conds kind = find_from kind 0 conds none

condition_from : List NodeCondition → String → Option NodeCondition
condition_from [] kind = none
condition_from (c ∷ cs) kind = if c.kind == kind then some c else condition_from cs kind

-- `GetNodeCondition`
unfoldable pub get_node_condition : Node → String → Option NodeCondition
unfolding condition_from
get_node_condition node kind = condition_from node.conditions kind

abbrev pub label_exclude_node : String
label_exclude_node = "service.ksyun.com/exclude-node"

abbrev pub label_exclude_node_deprecated : String
label_exclude_node_deprecated = "service.beta.kubernetes.io/exclude-node"

-- `HasExcludeLabel`
unfoldable pub has_exclude_label : Node → Bool
has_exclude_label node =
    if has_key label_exclude_node_deprecated node.labels
    then true
    else if has_key label_exclude_node node.labels
    then true
    else false

-- `FindNodeByNodeName`
unfoldable pub find_node_by_node_name : List Node → String → Option Node
find_node_by_node_name [] node_name = none
find_node_by_node_name (n ∷ ns) node_name =
    if n.name == node_name then some n else find_node_by_node_name ns node_name
