-- ===== src/Ip/Octets.antt =====
-- Addresses as four bytes: `FromBytes`, `Octets`, `ToIP`, `FromIP` and `NetworkOrder`.
use vpc_route_controller.Common.{
  ℕ, ◌+◌, ◌*◌, ◌/◌, ◌^◌, ◌<◌, bit_or, ◌≡◌, ap, true, false, List, [], ◌∷◌, arith, done, panicked,
  some, String, Option,
}
use vpc_route_controller.Common.Bits.{bit_or_low}
use vpc_route_controller.Ip.Addr.{
  IsAddr, u8, shl, from_bytes, from_ip, parse_ip4, to4, to_ip, Octets, octets, network_order,
}

-- Four bytes shifted to their places and joined.
join_bytes :
    (a b c d : ℕ)
    → a < 256
    → b < 256
    → c < 256
    → d < 256
    → bit_or (bit_or (bit_or d (shl c 8)) (shl b 16)) (shl a 24)
      ≡ a * 2 ^ 24 + b * 2 ^ 16 + c * 2 ^ 8 + d
join_bytes a b c d ha hb hc hd =
    let ec : shl c 8 ≡ c * 2 ^ 8 = omega arith in
    let eb : shl b 16 ≡ b * 2 ^ 16 = omega arith in
    let ea : shl a 24 ≡ a * 2 ^ 24 = omega arith in
    let j1 : bit_or d (c * 2 ^ 8) ≡ c * 2 ^ 8 + d = bit_or_low 8 c d (omega arith) in
    let j2 : bit_or (c * 2 ^ 8 + d) (b * 2 ^ 16) ≡ b * 2 ^ 16 + (c * 2 ^ 8 + d) =
      bit_or_low 16 b (c * 2 ^ 8 + d) (omega arith) in
    let j3 : bit_or (b * 2 ^ 16 + (c * 2 ^ 8 + d)) (a * 2 ^ 24)
        ≡ a * 2 ^ 24 + (b * 2 ^ 16 + (c * 2 ^ 8 + d)) =
      bit_or_low 24 a (b * 2 ^ 16 + (c * 2 ^ 8 + d)) (omega arith) in
    rw (ec, eb, ea, j1, j2, j3) (omega arith)

abbrev pub bytes : Octets → List ℕ
bytes o = o.a ∷ o.b ∷ o.c ∷ o.d ∷ []

-- FromBytes on the four bytes that Octets lists of an address gives the address back.
pub from_bytes-octets : (ip : ℕ) → IsAddr ip → from_bytes (bytes (octets ip)) ≡ done ip
unfolding from_bytes octets
from_bytes-octets ip h = ap done (
    ground (
      arith,
      join_bytes (u8 (ip / 2 ^ 24)) (u8 (ip / 2 ^ 16)) (u8 (ip / 2 ^ 8)) (u8 ip) (omega arith)
          (omega arith) (omega arith) (omega arith),
    ))

-- FromIP on the 16-byte form that ToIP makes of an address gives the address back.
pub from_ip-to_ip : (ip : ℕ) → IsAddr ip → from_ip (to_ip ip) ≡ done ip
unfolding from_ip to_ip
from_ip-to_ip ip h = from_bytes-octets ip h

-- FromIP on four bytes.
pub from_ip-bytes : (ip : ℕ) → IsAddr ip → from_ip (bytes (octets ip)) ≡ done ip
unfolding from_ip to4
from_ip-bytes ip h = from_bytes-octets ip h

network_order_sum :
    (ip : ℕ)
    → IsAddr ip
    → network_order true ip
      ≡ u8 ip * 2 ^ 24 + u8 (ip / 2 ^ 8) * 2 ^ 16 + u8 (ip / 2 ^ 16) * 2 ^ 8 + u8 (ip / 2 ^ 24)
unfolding network_order
network_order_sum ip h =
    join_bytes (u8 ip) (u8 (ip / 2 ^ 8)) (u8 (ip / 2 ^ 16)) (u8 (ip / 2 ^ 24)) (omega arith)
      (omega arith) (omega arith) (omega arith)

-- On a little-endian machine NetworkOrder reverses the bytes of an address and undoes itself; on a
-- big-endian one it is the address.
pub network_order_reverses :
    (ip : ℕ)
    → IsAddr ip
    → (octets (network_order true ip)
        ≡ record { a = (octets ip).d; b = (octets ip).c; c = (octets ip).b; d = (octets ip).a })
      × (network_order true (network_order true ip) ≡ ip)
      × (network_order false ip ≡ ip)
unfolding octets
network_order_reverses ip h =
    let s = network_order_sum ip h in
    let b0 : network_order true ip < 2 ^ 32 = omega (arith, s) in
    (ground (arith, s), omega (arith, s, network_order_sum (network_order true ip) b0), big)
  where
    big : network_order false ip ≡ ip
    big = unfold network_order in omega arith

from_ip_none : (ip : List ℕ) → to4 ip ≡ [] → from_ip ip ≡ panicked
unfolding from_ip
from_ip_none ip e = ap from_bytes e

-- ParseIP4 panics instead of reporting an error on a text that net.ParseIP takes for an address
-- which has no IPv4 form.
pub parse_ip4_panics :
    (parse_ip : String → Option (List ℕ)) (s : String) (ip : List ℕ)
    → parse_ip s ≡ some ip
    → to4 ip ≡ []
    → parse_ip4 parse_ip s ≡ panicked
unfolding parse_ip4
parse_ip4_panics parse_ip s ip h e = rw (h, parse_ip4, from_ip_none ip e)
