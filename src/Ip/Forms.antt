-- ===== src/Ip/Forms.antt =====
-- `ToIPNet` and `FromIPNet` of pkg/util/ip/ipnet.go, there and back.
use vpc_route_controller.Common.{ℕ, ◌≤◌, ◌≡◌, refl, true, nat_eq, done, arith}
use vpc_route_controller.Ip.Net.{Ip4Net, IsNet}
use vpc_route_controller.Ip.Masks.{holds_below, holds_at, nat_eq→eq}
use vpc_route_controller.Ip.Addr.{octets}
use vpc_route_controller.Ip.Octets.{bytes, from_ip-bytes, from_ip-to_ip}
use vpc_route_controller.Ip.Convert.{
  mask_bytes, cidr_mask, leading_ones, zeros, ones_from, from_ip_net, to_ip_net,
}

size_table : holds_below 33 (λ p. nat_eq (ones_from 0 (cidr_mask p)) p) ≡ true
unfolding holds_below cidr_mask mask_bytes ones_from leading_ones zeros
size_table = refl

-- The size of a mask of at most 32 ones is the number of its ones.
size_of_mask : (p : ℕ) → p ≤ 32 → ones_from 0 (cidr_mask p) ≡ p
size_of_mask p h = nat_eq→eq _ _ (holds_at 33 _ p size_table (omega (arith, h)))

-- FromIPNet reads an address of four bytes and a mask, the form that package net gives to a network
-- that it parses.
pub from_ip_net-bytes :
    (n : Ip4Net) → IsNet n → from_ip_net (bytes (octets n.ip), cidr_mask n.prefix_len) ≡ done n
unfolding from_ip_net
from_ip_net-bytes n valid =
    rw (from_ip-bytes n.ip valid.addr, from_ip_net)
      (rw (size_of_mask n.prefix_len valid.short) refl)

-- FromIPNet gives back the network that ToIPNet was given, where its prefix has at most 32 bits.
pub from_ip_net-to_ip_net : (n : Ip4Net) → IsNet n → from_ip_net (to_ip_net n) ≡ done n
unfolding from_ip_net to_ip_net
from_ip_net-to_ip_net n valid =
    rw (from_ip-to_ip n.ip valid.addr, to_ip_net, from_ip_net)
      (rw (size_of_mask n.prefix_len valid.short) refl)
