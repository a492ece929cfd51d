-- ===== src/Route/Cidr.antt =====
-- `containsRoute` and `conflictWithNodes` of pkg/controller/route/manager.go.
use vpc_route_controller.Common.{
  ℕ, ◌-◌, String, Bool, true, false, not, Option, none, some, List, [], ◌∷◌, ◌==◌, ◌&&◌, ◌||◌,
  nat_eq, if◌then◌else◌, concat, length, Outcome, done, panicked, Result, ok, err, plain, message,
  bit_and, bit_or,
}
use vpc_route_controller.Ip.Addr.{to4}
use vpc_route_controller.Kube.{Node}
use vpc_route_controller.Route.State.{Route, IpNet, Libs}
use vpc_route_controller.Route.Nodes.{get_ipv4_route_for_node, get_node_instance_id}

-- The byte test of `IPNet.Contains`: the same bits under the mask, byte by byte.
unfoldable pub same_masked : List ℕ → List ℕ → List ℕ → Bool
same_masked [] m [] = true
same_masked (n ∷ ns) (m ∷ ms) (i ∷ is) = nat_eq (bit_and n m) (bit_and i m) && same_masked ns ms is
same_masked _ _ _ = false

-- `To4`, or the address itself where that is nil.
unfoldable pub shortest : List ℕ → List ℕ
unfolding to4
shortest ip = elim (to4 ip) [ [] ↦ ip | b ∷ bs ↦ b ∷ bs ]

abbrev drop_twelve : List ℕ → List ℕ
drop_twelve (a ∷ b ∷ c ∷ d ∷ e ∷ f ∷ g ∷ h ∷ i ∷ j ∷ k ∷ l ∷ rest) = rest
drop_twelve _ = []

-- `net.IPNet.Contains`
unfoldable pub net_contains : IpNet → List ℕ → Bool
unfolding same_masked shortest
net_contains net ip =
    let number = shortest net.ip in
    let four = nat_eq (length number) 4 in
    if not (four || nat_eq (length number) 16)
    then nat_eq (length (shortest ip)) 0
    else if nat_eq (length net.mask) 4
    then (if four
        then same_masked number net.mask (shortest ip)
        else nat_eq (length (shortest ip)) 0)
    else if nat_eq (length net.mask) 16
    then (if four
        then same_masked number (drop_twelve net.mask) (shortest ip)
        else same_masked number net.mask (shortest ip))
    else nat_eq (length (shortest ip)) 0

-- `lastIP[i] = cidr.IP[i] | ^cidr.Mask[i]`; a mask that is too short panics.
unfoldable pub last_ip : List ℕ → List ℕ → Outcome (List ℕ)
last_ip [] mask = done []
last_ip (b ∷ bs) [] = panicked
last_ip (b ∷ bs) (m ∷ ms) = elim (last_ip bs ms) [
  | panicked ↦ panicked
  | done rest ↦ done (bit_or b (255 - m) ∷ rest)
]

module _ (libs : Libs) where
  -- `containsRoute`: whether the route's network is the outside one or inside it, and whether it is
  -- inside and not the same.
  unfoldable pub contains_route : Option IpNet → String → Outcome (Result (Bool × Bool))
  contains_route none inside_route = done (ok (true, true))
  contains_route (some outside) inside_route = elim (libs.parse_cidr inside_route) [
    | err e ↦ done (
        err (
          plain
            (concat ("ignoring route " ∷ inside_route ∷ ", unparsable CIDR: " ∷ message e ∷ []))))
    | ok cidr ↦
        if libs.ip_net_string outside == inside_route
        then done (ok (true, false))
        else elim (last_ip cidr.ip cidr.mask) [
          | panicked ↦ panicked
          | done last ↦
              if not (net_contains outside cidr.ip) || not (net_contains outside last)
              then done (ok (false, false))
              else done (ok (true, true))
        ]
  ]

  -- What a round of `conflictWithNodes` makes of the comparison with the node's network.
  abbrev pub after_compare : Route → Node → Outcome (Result (Bool × Bool)) → Outcome Bool
  after_compare route node panicked = panicked
  after_compare route node (done (err e)) = done false
  after_compare route node (done (ok (equal, contains))) =
      done (contains || (equal && not (route.instance_id == get_node_instance_id node)))

  -- A round of `conflictWithNodes`.
  unfoldable pub conflict_with_node : Route → Node → Outcome Bool
  conflict_with_node route node = elim (get_ipv4_route_for_node libs node) [
    | err e ↦ done false
    | ok (none, text) ↦ done false
    | ok (some net, text) ↦
        after_compare route node (contains_route (some net) route.destination_cidr)
  ]

  -- `conflictWithNodes`
  unfoldable pub conflict_with_nodes : Route → List Node → Outcome Bool
  conflict_with_nodes route [] = done false
  conflict_with_nodes route (node ∷ nodes) =
      let later = conflict_with_nodes route nodes in
      elim (conflict_with_node route node) [
        | panicked ↦ panicked
        | done true ↦ done true
        | done false ↦ later
      ]
