-- ===== src/Ip/Addr.antt =====
-- `type IP4 uint32` of pkg/util/ip/ipnet.go. An address is a number below 2 ^ 32, a byte one below
-- 256; casts and shifts cut off what does not fit.
use vpc_route_controller.Common.{
  ℕ, zero, suc, ◌*◌, ◌/◌, ◌%◌, ◌^◌, ◌<◌, bit_or, String, Bool, true, false, Option, none, some,
  List, [], ◌∷◌, Result, ok, err, plain, Outcome, done, panicked, nat_eq, ◌&&◌, if◌then◌else◌,
  concat, decimal,
}

abbrev pub u8 : ℕ → ℕ
u8 x = x % 256

abbrev pub u32 : ℕ → ℕ
u32 x = x % 2 ^ 32

-- `uint32(b) << k` at a shift below 32.
abbrev pub shl : ℕ → ℕ → ℕ
shl b k = u32 (b * 2 ^ k)

abbrev pub IsAddr : ℕ → Type 0
IsAddr x = x < 2 ^ 32

-- `FromBytes`; an index past the end panics.
unfoldable pub from_bytes : List ℕ → Outcome ℕ
from_bytes (a ∷ b ∷ c ∷ d ∷ rest) =
    done (bit_or (bit_or (bit_or d (shl c 8)) (shl b 16)) (shl a 24))
from_bytes _ = panicked

all_zero : ℕ → List ℕ → Bool
all_zero zero bs = true
all_zero (suc k) [] = false
all_zero (suc k) (b ∷ bs) = nat_eq b 0 && all_zero k bs

-- `net.IP.To4`: four bytes as they are, the last four of a 16-byte address that maps an IPv4 one,
-- and nil (the empty slice) otherwise.
unfoldable pub to4 : List ℕ → List ℕ
unfolding all_zero
to4 (a ∷ b ∷ c ∷ d ∷ []) = a ∷ b ∷ c ∷ d ∷ []
to4 (p0 ∷ p1 ∷ p2 ∷ p3 ∷ p4 ∷ p5 ∷ p6 ∷ p7 ∷ p8 ∷ p9 ∷ q ∷ r ∷ a ∷ b ∷ c ∷ d ∷ []) =
    if all_zero 10 (p0 ∷ p1 ∷ p2 ∷ p3 ∷ p4 ∷ p5 ∷ p6 ∷ p7 ∷ p8 ∷ p9 ∷ [])
      && nat_eq q 255
      && nat_eq r 255
    then a ∷ b ∷ c ∷ d ∷ []
    else []
to4 _ = []

-- `FromIP`
unfoldable pub from_ip : List ℕ → Outcome ℕ
unfolding from_bytes to4
from_ip ip = from_bytes (to4 ip)

-- `ParseIP4`, over `net.ParseIP`, which answers nil on a text that is no address.
unfoldable pub parse_ip4 : (String → Option (List ℕ)) → String → Outcome (Result ℕ)
parse_ip4 parse_ip s = elim (parse_ip s) [
  | none ↦ done (err (plain "Invalid IP address format"))
  | some ip ↦ elim (from_ip ip) [ done x ↦ done (ok x) | panicked ↦ panicked ]
]

pub record Octets : Type 0 where
  pub a : ℕ
  pub b : ℕ
  pub c : ℕ
  pub d : ℕ

-- `IP4.Octets`
unfoldable pub octets : ℕ → Octets
octets ip = record { a = u8 (ip / 2 ^ 24); b = u8 (ip / 2 ^ 16); c = u8 (ip / 2 ^ 8); d = u8 ip }

-- `IP4.ToIP`: `net.IPv4` makes the 16-byte form.
unfoldable pub to_ip : ℕ → List ℕ
unfolding octets
to_ip ip =
    let o = octets ip in
    0 ∷ 0 ∷ 0 ∷ 0 ∷ 0 ∷ 0 ∷ 0 ∷ 0 ∷ 0 ∷ 0 ∷ 255 ∷ 255 ∷ o.a ∷ o.b ∷ o.c ∷ o.d ∷ []

-- `IP4.NetworkOrder`, over what `NativelyLittle` finds of the machine.
unfoldable pub network_order : Bool → ℕ → ℕ
network_order natively_little ip =
    if natively_little
    then bit_or
        (bit_or (bit_or (u8 (ip / 2 ^ 24)) (shl (u8 (ip / 2 ^ 16)) 8)) (shl (u8 (ip / 2 ^ 8)) 16))
        (shl (u8 ip) 24)
    else u32 ip

-- `IP4.StringSep`
unfoldable pub string_sep : String → ℕ → String
unfolding octets
string_sep sep ip =
    let o = octets ip in
    concat (decimal o.a ∷ sep ∷ decimal o.b ∷ sep ∷ decimal o.c ∷ sep ∷ decimal o.d ∷ [])
