-- ===== src/Route/Selection.antt =====
-- Which pod network `getIPv4RouteForNode` picks.
use mathlib.Core.Path.{Path}
use vpc_route_controller.Common.{
  ℕ, zero, suc, String, true, Option, none, some, List, [], ◌∷◌, ◌++◌, ◌≡◌, ◌≢◌, refl, ◌==◌, ◌⊎◌,
  All, get_elem?, length, nat_eq, Result, ok, err, Error, arith, inl, inr, Bool-cases, Result-cases,
  eq_iff,
}
use vpc_route_controller.Kube.{Node}
use vpc_route_controller.Route.State.{IpNet, Libs}
use vpc_route_controller.Route.Nodes.{pod_network_from, get_ipv4_route_for_node}

module _ (libs : Libs) where
  -- Some entry of the list is the text of that network.
  abbrev pub ParsedFrom : IpNet → List String → Type 0
  ParsedFrom net cidrs =
      (i : ℕ) × (cidr : String) × (get_elem? cidrs i ≡ some cidr) × (libs.parse_cidr cidr ≡ ok net)

  -- No entry is the text of a network with a mask of four bytes.
  abbrev pub NoIpv4 : List String → Type 0
  NoIpv4 = All (λ (cidr : String).
      cidr ≢ "" → (net : IpNet) → libs.parse_cidr cidr ≡ ok net → length net.mask ≢ 4)

  abbrev Picked : Option IpNet → List String → IpNet → String → Type 0
  Picked start cidrs net text =
      ((start ≡ some net) ⊎ ParsedFrom net cidrs)
      × (text ≡ libs.ip_net_string net)
      × ((length net.mask ≡ 4) ⊎ NoIpv4 cidrs)

  Picked-skip :
      (start : Option IpNet) (cidr : String) (cidrs : List String) (net : IpNet) (text : String)
      → cidr ≡ ""
      → Picked start cidrs net text
      → Picked start (cidr ∷ cidrs) net text
  Picked-skip start cidr cidrs net text e (from, t, v4) = (
    elim from [ inl s ↦ inl s | inr (i, c, at, p) ↦ inr (suc i, c, at, p) ],
    t,
    elim v4 [ inl four ↦ inl four | inr others ↦ inr ((λ ne n p. absurd (ne e)), others) ],
  )

  Picked-later :
      (start : Option IpNet) (cidr : String) (cidrs : List String) (found net : IpNet)
      (text : String)
      → libs.parse_cidr cidr ≡ ok found
      → length found.mask ≢ 4
      → Picked (some found) cidrs net text
      → Picked start (cidr ∷ cidrs) net text
  Picked-later start cidr cidrs found net text p long (from, t, v4) = (
    inr (elim from [
      | inl s ↦ (zero, cidr, refl, ground arith)
      | inr (i, c, at, q) ↦ (suc i, c, at, q)
    ]),
    t,
    elim v4 [ inl four ↦ inl four | inr others ↦ inr ((λ ne n q. ground (arith, long)), others) ],
  )

  pod_network_from-Picked :
      (cidrs : List String) (start : Option IpNet) (before text : String) (net : IpNet)
      → ((n : IpNet) → start ≡ some n → before ≡ libs.ip_net_string n)
      → pod_network_from libs cidrs start before ≡ ok (some net, text)
      → Picked start cidrs net text
  unfolding pod_network_from
  pod_network_from-Picked [] start before text net same e =
      (inl (ground arith), ground (arith, same net), inr tt)
  pod_network_from-Picked (cidr ∷ cidrs) start before text net same e =
      elim (Bool-cases (cidr == "")) [
        | inl blank ↦
            Picked-skip start cidr cidrs net text ((eq_iff cidr "").0 blank)
              (pod_network_from-Picked cidrs start before text net same (rw blank at e))
        | inr given ↦ elim (Result-cases (libs.parse_cidr cidr)) [
          | inr (x, p) ↦ absurd (not_ok (rw p at (rw given at e)))
          | inl (found, p) ↦ elim (Bool-cases (nat_eq (length found.mask) 4)) [
            | inl four ↦ picked_now found p four (rw four at (rw p at (rw given at e)))
            | inr long ↦ Picked-later start cidr cidrs found net text p (ground arith) (
                pod_network_from-Picked cidrs (some found) (libs.ip_net_string found) text net
                  (λ n s. ground arith) (rw long at (rw p at (rw given at e))))
          ]
        ]
      ]
    where
      not_ok : {x : Error} → Path (Result (Option IpNet × String)) (err x) (ok (some net, text)) → ⊥
      not_ok h = cc

      picked_now :
          (found : IpNet)
          → libs.parse_cidr cidr ≡ ok found
          → nat_eq (length found.mask) 4 ≡ true
          → Path
              (Result (Option IpNet × String))
              (ok (some found, libs.ip_net_string found))
              (ok (some net, text))
          → Picked start (cidr ∷ cidrs) net text
      picked_now found p four h =
          (inr (zero, cidr, refl, ground arith), ground arith, inl (ground arith))

  -- The network that getIPv4RouteForNode returns is parsed from one of the node's pod networks,
  -- comes with its own text, and has a mask of four bytes unless none of them has.
  pub get_ipv4_route_for_node_picks :
      (node : Node) (net : IpNet) (text : String)
      → get_ipv4_route_for_node libs node ≡ ok (some net, text)
      → let cidrs = node.pod_cidrs ++ node.pod_cidr ∷ [] in
        ParsedFrom net cidrs
        × (text ≡ libs.ip_net_string net)
        × ((length net.mask ≡ 4) ⊎ NoIpv4 cidrs)
  unfolding get_ipv4_route_for_node
  get_ipv4_route_for_node_picks node net text e = from_start (
      pod_network_from-Picked (node.pod_cidrs ++ node.pod_cidr ∷ []) none "" text net (λ n s. cc) e)
    where
      from_start :
          Picked none (node.pod_cidrs ++ node.pod_cidr ∷ []) net text
          → ParsedFrom net (node.pod_cidrs ++ node.pod_cidr ∷ [])
            × (text ≡ libs.ip_net_string net)
            × ((length net.mask ≡ 4) ⊎ NoIpv4 (node.pod_cidrs ++ node.pod_cidr ∷ []))
      from_start (inl s, t, v4) = cc
      from_start (inr from, t, v4) = (from, t, v4)
