-- ===== src/Ip/Convert.antt =====
-- The conversions of pkg/util/ip/ipnet.go between `IP4Net` and `net.IPNet`, which is a pair of an address and
-- a mask in bytes, and `MustParseIP4`.
use vpc_route_controller.Common.{
  ℕ, zero, suc, ◌+◌, ◌-◌, ◌*◌, ◌^◌, String, Bool, true, Option, List, [], ◌∷◌, Outcome, done,
  panicked, ok, err, nat_eq, leb, if◌then◌else◌, ◌&&◌,
}
use vpc_route_controller.Ip.Addr.{u8, from_ip, parse_ip4, to_ip}
use vpc_route_controller.Ip.Net.{Ip4Net}

-- The loop of `net.CIDRMask` over the bytes that are left, with so many ones left.
unfoldable pub mask_bytes : ℕ → ℕ → List ℕ
mask_bytes zero ones = []
mask_bytes (suc k) ones =
    if leb 8 ones then 255 ∷ mask_bytes k (ones - 8) else u8 (255 * 2 ^ (8 - ones)) ∷ mask_bytes k 0

-- `net.CIDRMask(ones, 32)`, nil where there are more than 32.
unfoldable pub cidr_mask : ℕ → List ℕ
unfolding mask_bytes
cidr_mask ones = if leb ones 32 then mask_bytes 4 ones else []

-- The leading ones of a byte, and what is left of it when they are shifted out.
unfoldable pub leading_ones : ℕ → ℕ → ℕ × ℕ
leading_ones zero v = (0, v)
leading_ones (suc k) v =
    let (n, rest) = leading_ones k (u8 (v * 2)) in if leb 128 v then (suc n, rest) else (0, v)

unfoldable pub zeros : List ℕ → Bool
zeros [] = true
zeros (b ∷ bs) = nat_eq b 0 && zeros bs

-- `net.IPMask.Size`, its first result: the number of leading ones, and 0 where a one follows a zero.
unfoldable pub ones_from : ℕ → List ℕ → ℕ
unfolding leading_ones zeros
ones_from n [] = n
ones_from n (b ∷ bs) =
    let (k, rest) = leading_ones 8 b in
    let more = ones_from (n + 8) bs in
    if nat_eq b 255 then more else if nat_eq rest 0 && zeros bs then n + k else 0

-- `FromIPNet`
unfoldable pub from_ip_net : List ℕ × List ℕ → Outcome Ip4Net
unfolding ones_from
from_ip_net (ip, mask) = elim (from_ip ip) [
  | done x ↦ done (record { ip = x; prefix_len = ones_from 0 mask })
  | panicked ↦ panicked
]

-- `IP4Net.ToIPNet`
unfoldable pub to_ip_net : Ip4Net → List ℕ × List ℕ
unfolding cidr_mask
to_ip_net n = (to_ip n.ip, cidr_mask n.prefix_len)

-- `MustParseIP4`
unfoldable pub must_parse_ip4 : (String → Option (List ℕ)) → String → Outcome ℕ
must_parse_ip4 parse_ip s = elim (parse_ip4 parse_ip s) [
  | done (ok ip) ↦ done ip
  | done (err e) ↦ panicked
  | panicked ↦ panicked
]
