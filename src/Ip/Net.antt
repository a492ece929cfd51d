-- ===== src/Ip/Net.antt =====
-- `type IP4Net struct` of pkg/util/ip/ipnet.go. `uint` has 64 bits, so `32 - PrefixLen` wraps for a
-- longer prefix, and a shift by 32 or more leaves 0.
use vpc_route_controller.Common.{
  ℕ, ◌+◌, ◌-◌, ◌*◌, ◌%◌, ◌^◌, ◌≤◌, bit_and, String, Bool, ◌∷◌, [], nat_eq, ltb, ◌&&◌, if◌then◌else◌,
  concat, decimal,
}
use vpc_route_controller.Ip.Addr.{u32, IsAddr, string_sep}

pub record Ip4Net : Type 0 where
  pub ip : ℕ
  pub prefix_len : ℕ

-- An address with a prefix of at most 32 bits.
pub record IsNet (n : Ip4Net) : Type 0 where
  pub addr : IsAddr n.ip
  pub short : n.prefix_len ≤ 32

abbrev pub sub_uint : ℕ → ℕ → ℕ
sub_uint a b = (a + 2 ^ 64 - b) % 2 ^ 64

-- `x << k` on `uint32` at any shift.
abbrev pub shl32 : ℕ → ℕ → ℕ
shl32 x k = if ltb k 32 then u32 (x * 2 ^ k) else 0

-- `IP4Net.Mask`
unfoldable pub mask : Ip4Net → ℕ
mask n = shl32 0xffff_ffff (sub_uint 32 n.prefix_len)

-- `IP4Net.Network`
unfoldable pub network : Ip4Net → Ip4Net
unfolding mask
network n = record { ip = bit_and n.ip (mask n); prefix_len = n.prefix_len }

-- `IP4Net.Next`
unfoldable pub next : Ip4Net → Ip4Net
next n = record { ip = u32 (n.ip + shl32 1 (sub_uint 32 n.prefix_len)); prefix_len = n.prefix_len }

-- `IP4Net.Overlaps`
unfoldable pub overlaps : Ip4Net → Ip4Net → Bool
overlaps n other =
    let m = if ltb n.prefix_len other.prefix_len then mask n else mask other in
    nat_eq (bit_and n.ip m) (bit_and other.ip m)

-- `IP4Net.Equal`
unfoldable pub equal : Ip4Net → Ip4Net → Bool
equal n other = nat_eq n.ip other.ip && nat_eq n.prefix_len other.prefix_len

-- `IP4Net.Contains`
unfoldable pub contains : Ip4Net → ℕ → Bool
contains n ip = nat_eq (bit_and n.ip (mask n)) (bit_and ip (mask n))

-- `IP4Net.Empty`
unfoldable pub empty : Ip4Net → Bool
empty n = nat_eq n.ip 0 && nat_eq n.prefix_len 0

-- `IP4Net.StringSep`
unfoldable pub net_string_sep : String → String → Ip4Net → String
unfolding string_sep
net_string_sep octet_sep prefix_sep n =
    concat (string_sep octet_sep n.ip ∷ prefix_sep ∷ decimal n.prefix_len ∷ [])
