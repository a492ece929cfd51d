-- ===== src/Ip/Tests.antt =====
-- The theorems about addresses and networks at concrete ones: 10.0.1.5, and networks around it.
use vpc_route_controller.Common.{
  ℕ, ◌+◌, ◌≤◌, ◌<◌, ◌≡◌, refl, ◌↔◌, true, List, [], ◌∷◌, done, arith, none, ok, err, plain, Result,
  String, ◌==◌, ◌≢◌, ap, if◌then◌else◌, decimal, digit, decimal_from,
}
use vpc_route_controller.Ip.Addr.{IsAddr, octets, string_sep}
use vpc_route_controller.Ip.Net.{Ip4Net, IsNet, network, mask, net_string_sep, overlaps, contains}
use vpc_route_controller.Ip.Masks.{block}
use vpc_route_controller.Ip.Convert.{cidr_mask, mask_bytes}
use vpc_route_controller.Ip.Json.{net_string_of, marshal_net, unmarshal_net}
use vpc_route_controller.Ip.Quotes.{unmarshal_net-marshal_net}
use vpc_route_controller.Ip.Iface.{System, get_iface_ip4_addr}
use vpc_route_controller.Ip.Choice.{
  such, global, link_local, last_or, preferred, get_iface_ip4_addr_prefers,
}
use vpc_route_controller.Ip.Ranges.{contains-range, overlaps_iff}

abbrev host : ℕ
host = 167772421

abbrev net24 : Ip4Net
net24 = record { ip = 167772421; prefix_len = 24 }

abbrev net16 : Ip4Net
net16 = record { ip = 167772160; prefix_len = 16 }

host-IsAddr : IsAddr host
host-IsAddr = omega arith

net24-IsNet : IsNet net24
net24-IsNet = record { addr = omega arith; short = omega arith }

net16-IsNet : IsNet net16
net16-IsNet = record { addr = omega arith; short = omega arith }

-- `::1`
abbrev loopback : List ℕ
loopback = 0 ∷ 0 ∷ 0 ∷ 0 ∷ 0 ∷ 0 ∷ 0 ∷ 0 ∷ 0 ∷ 0 ∷ 0 ∷ 0 ∷ 0 ∷ 0 ∷ 0 ∷ 1 ∷ []

contains-range_example :
    (contains net24 host ≡ true)
    ↔ (((network net24).ip ≤ host) × (host < (network net24).ip + block net24.prefix_len))
contains-range_example = contains-range net24 host net24-IsNet host-IsAddr

overlaps_iff_example :
    (overlaps net24 net16 ≡ true)
    ↔ ((x : ℕ) × IsAddr x × (contains net24 x ≡ true) × (contains net16 x ≡ true))
overlaps_iff_example = overlaps_iff net24 net16 net24-IsNet net16-IsNet

-- An IPv6 address, a link-local one, and two that are global.
abbrev own_addrs : List (List ℕ)
own_addrs = loopback ∷ (169 ∷ 254 ∷ 0 ∷ 1 ∷ []) ∷ (10 ∷ 0 ∷ 1 ∷ 5 ∷ []) ∷ (10 ∷ 0 ∷ 1 ∷ 6 ∷ []) ∷ []

abbrev system : System ℕ
system = record {
  addr_list = λ i. ok own_addrs;
  route_list = ok [];
  interface_by_index = λ i. ok i;
  interfaces = ok (1 ∷ []);
}

get_iface_ip4_addr_prefers_example :
    get_iface_ip4_addr system 1
    ≡ preferred (such global own_addrs) (last_or none (such link_local own_addrs))
get_iface_ip4_addr_prefers_example = get_iface_ip4_addr_prefers system 1 own_addrs refl

-- A parser that knows one network, in the bytes of `net.ParseCIDR`.
abbrev one_network : String → Result (List ℕ × List ℕ)
one_network s =
    if s == "10.0.1.5/24"
    then ok (10 ∷ 0 ∷ 1 ∷ 0 ∷ [], 255 ∷ 255 ∷ 255 ∷ 0 ∷ [])
    else err (plain "invalid CIDR address")

unmarshal_net-marshal_net_example :
    unmarshal_net one_network (marshal_net net24) ≡ done (ok (network net24))
unfolding net_string_of net_string_sep string_sep octets decimal digit decimal_from network mask
    cidr_mask mask_bytes
unmarshal_net-marshal_net_example = unmarshal_net-marshal_net one_network net24 net24-IsNet refl

-- The bits of the host do not come back.
host_bits_lost : network net24 ≢ net24
unfolding network mask
host_bits_lost e = ground (arith, ap (λ (n : Ip4Net). n.ip) e)
