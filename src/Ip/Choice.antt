-- ===== src/Ip/Choice.antt =====
-- Which address `GetIfaceIP4Addr` of pkg/util/ip/iface.go prefers.
use vpc_route_controller.Common.{
  ℕ, Bool, not, Option, none, some, List, [], ◌∷◌, ◌≡◌, refl, if◌then◌else◌, ◌&&◌, Result, ok, err,
  Bool-cases, inl, inr,
}
use vpc_route_controller.Ip.Addr.{to4}
use vpc_route_controller.Ip.Iface.{
  System, no_address, is_link_local_unicast, is_global_unicast, is_nil, pick_addr,
  get_iface_ip4_addr,
}

-- The addresses that pass the test, in order.
abbrev pub such : (List ℕ → Bool) → List (List ℕ) → List (List ℕ)
such test [] = []
such test (ip ∷ ips) = let rest = such test ips in if test ip then ip ∷ rest else rest

abbrev pub global : List ℕ → Bool
global ip = not (is_nil (to4 ip)) && is_global_unicast (to4 ip)

abbrev pub link_local : List ℕ → Bool
link_local ip = not (is_nil (to4 ip)) && is_link_local_unicast (to4 ip)

abbrev pub last_or : Option (List ℕ) → List (List ℕ) → Option (List ℕ)
last_or ll [] = ll
last_or ll (ip ∷ ips) = last_or (some ip) ips

-- The first global unicast address, or else the last link-local one, or else none.
abbrev pub preferred : List (List ℕ) → Option (List ℕ) → Result (List ℕ)
preferred [] none = err no_address
preferred [] (some ll) = ok ll
preferred (ip ∷ ips) ll = ok ip

pick_addr_prefers :
    (ips : List (List ℕ)) (ll : Option (List ℕ))
    → pick_addr ips ll ≡ preferred (such global ips) (last_or ll (such link_local ips))
unfolding pick_addr
pick_addr_prefers [] none = refl
pick_addr_prefers [] (some ll) = refl
pick_addr_prefers (ip ∷ ips) ll = elim (Bool-cases (is_nil (to4 ip))) [
  | inl v6 ↦ rw (v6, pick_addr) (pick_addr_prefers ips ll)
  | inr v4 ↦ elim (Bool-cases (is_global_unicast (to4 ip))) [
    | inl here ↦ rw (v4, pick_addr) (rw here refl)
    | inr other ↦ elim (Bool-cases (is_link_local_unicast (to4 ip))) [
      | inl near ↦ rw (v4, pick_addr) (rw other (rw near (pick_addr_prefers ips (some ip))))
      | inr far ↦ rw (v4, pick_addr) (rw other (rw far (pick_addr_prefers ips ll)))
    ]
  ]
]

-- When the addresses of an interface can be listed, GetIfaceIP4Addr answers the first global unicast IPv4
-- address, or else the last link-local one, or else an error.
pub get_iface_ip4_addr_prefers :
    {I : Type 0} (system : System I) (iface : I) (ips : List (List ℕ))
    → system.addr_list iface ≡ ok ips
    → get_iface_ip4_addr system iface
      ≡ preferred (such global ips) (last_or none (such link_local ips))
unfolding get_iface_ip4_addr
get_iface_ip4_addr_prefers system iface ips listed =
    rw (listed, get_iface_ip4_addr) (pick_addr_prefers ips none)
