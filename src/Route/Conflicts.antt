-- ===== src/Route/Conflicts.antt =====
-- Which routes `conflictWithNodes` finds.
use vpc_route_controller.Common.{
  ℕ, zero, suc, String, Bool, true, false, not, Option, none, some, List, [], ◌∷◌, ◌≡◌, ◌≢◌, refl,
  ap, ◌==◌, ◌⊎◌, ◌||◌, ◌&&◌, All, get_elem?, Outcome, done, panicked, Result, ok, err, arith, inl,
  inr, eq_iff,
}
use vpc_route_controller.Kube.{Node}
use vpc_route_controller.Route.State.{Route, IpNet, Libs}
use vpc_route_controller.Route.Nodes.{get_ipv4_route_for_node, get_node_instance_id}
use vpc_route_controller.Route.Cidr.{
  contains_route, after_compare, conflict_with_node, conflict_with_nodes,
}

module _ (libs : Libs) (route : Route) where
  -- The comparison finds the route strictly inside the node's network, or the same and going to
  -- another instance.
  abbrev pub Clash : Node → Bool × Bool → Type 0
  Clash node (equal, inside) =
      (inside ≡ true) ⊎ ((equal ≡ true) × (route.instance_id ≢ get_node_instance_id node))

  -- The route conflicts with the node.
  abbrev pub Conflict : Node → Type 0
  Conflict node =
      (net : IpNet) × (text : String) × (found : Bool × Bool) × (get_ipv4_route_for_node libs node
        ≡ ok (some net, text))
      × (contains_route libs (some net) route.destination_cidr ≡ done (ok found))
      × Clash node found

  abbrev clashes : Node → Bool → Bool → Bool
  clashes node equal inside =
      inside || (equal && not (route.instance_id == get_node_instance_id node))

  clashes-Clash :
      (node : Node) (equal inside : Bool)
      → clashes node equal inside ≡ true
      → Clash node (equal, inside)
  clashes-Clash node equal true h = inl refl
  clashes-Clash node true false h =
      inr (refl, λ e. ground (arith, h, e, eq_iff route.instance_id (get_node_instance_id node)))
  clashes-Clash node false false h = ground arith

  Clash-clashes :
      (node : Node) (equal inside : Bool)
      → Clash node (equal, inside)
      → clashes node equal inside ≡ true
  Clash-clashes node equal true h = refl
  Clash-clashes node equal false (inl i) = ground arith
  Clash-clashes node true false (inr (e, other)) =
      ground (arith, other, eq_iff route.instance_id (get_node_instance_id node))
  Clash-clashes node false false (inr (e, other)) = ground arith

  compare_sound :
      (node : Node) (c : Outcome (Result (Bool × Bool)))
      → after_compare libs route node c ≡ done true
      → (found : Bool × Bool) × (c ≡ done (ok found)) × Clash node found
  compare_sound node panicked h = cc
  compare_sound node (done (err e)) h = absurd (ground (arith, h))
  compare_sound node (done (ok (equal, inside))) h =
      ((equal, inside), refl, clashes-Clash node equal inside (ground (arith, h)))

  round_sound :
      (node : Node) (r : Result (Option IpNet × String))
      → get_ipv4_route_for_node libs node ≡ r
      → conflict_with_node libs route node ≡ done true
      → Conflict node
  unfolding conflict_with_node
  round_sound node (err e) spec h = absurd (ground (arith, rw (spec, conflict_with_node) at h))
  round_sound node (ok (none, text)) spec h =
      absurd (ground (arith, rw (spec, conflict_with_node) at h))
  round_sound node (ok (some net, text)) spec h =
      let (found, c, clash) =
        compare_sound node (contains_route libs (some net) route.destination_cidr)
          (rw (spec, conflict_with_node) at h) in
      (net, text, found, spec, c, clash)

  round_complete : (node : Node) → Conflict node → conflict_with_node libs route node ≡ done true
  unfolding conflict_with_node
  round_complete node (net, text, (equal, inside), spec, c, clash) =
      rw (spec, conflict_with_node) (rw c (ap done (Clash-clashes node equal inside clash)))

  -- Where the node stands, and that it conflicts.
  abbrev pub SomeConflict : List Node → Type 0
  SomeConflict nodes = (i : ℕ) × (node : Node) × (get_elem? nodes i ≡ some node) × Conflict node

  SomeConflict-later :
      (node : Node) (nodes : List Node) → SomeConflict nodes → SomeConflict (node ∷ nodes)
  SomeConflict-later node nodes (i, n, at, c) = (suc i, n, at, c)

  rounds_sound :
      (node : Node) (nodes : List Node) (o : Outcome Bool)
      → conflict_with_node libs route node ≡ o
      → (conflict_with_nodes libs route nodes ≡ done true → SomeConflict nodes)
      → conflict_with_nodes libs route (node ∷ nodes) ≡ done true
      → SomeConflict (node ∷ nodes)
  unfolding conflict_with_nodes
  rounds_sound node nodes panicked e later h = cc (rw (e, conflict_with_nodes) at h)
  rounds_sound node nodes (done true) e later h = (zero, node, refl, round_sound node _ refl e)
  rounds_sound node nodes (done false) e later h =
      SomeConflict-later node nodes (later (rw (e, conflict_with_nodes) at h))

  -- When conflictWithNodes answers that a route conflicts, for one of the nodes containsRoute
  -- finds the route strictly inside the node's pod network, or finds it to be that network while
  -- it goes to another instance.
  pub conflict_with_nodes_sound :
      (nodes : List Node) → conflict_with_nodes libs route nodes ≡ done true → SomeConflict nodes
  unfolding conflict_with_nodes
  conflict_with_nodes_sound [] h = absurd (ground (arith, h))
  conflict_with_nodes_sound (node ∷ nodes) h =
      rounds_sound node nodes _ refl (conflict_with_nodes_sound nodes) h

  rounds_complete :
      (node : Node) (nodes : List Node) (o : Outcome Bool)
      → conflict_with_node libs route node ≡ o
      → (conflict_with_nodes libs route nodes ≡ done false
          → All (λ (n : Node). Conflict n → ⊥) nodes)
      → conflict_with_nodes libs route (node ∷ nodes) ≡ done false
      → All (λ (n : Node). Conflict n → ⊥) (node ∷ nodes)
  unfolding conflict_with_nodes
  rounds_complete node nodes panicked e later h = cc (rw (e, conflict_with_nodes) at h)
  rounds_complete node nodes (done true) e later h =
      absurd (ground (arith, rw (e, conflict_with_nodes) at h))
  rounds_complete node nodes (done false) e later h =
      (λ c. ground (arith, e, round_complete node c), later (rw (e, conflict_with_nodes) at h))

  -- When conflictWithNodes answers that a route does not conflict, it conflicts with no node in
  -- that sense.
  pub conflict_with_nodes_complete :
      (nodes : List Node)
      → conflict_with_nodes libs route nodes ≡ done false
      → All (λ (n : Node). Conflict n → ⊥) nodes
  unfolding conflict_with_nodes
  conflict_with_nodes_complete [] h = tt
  conflict_with_nodes_complete (node ∷ nodes) h =
      rounds_complete node nodes _ refl (conflict_with_nodes_complete nodes) h
