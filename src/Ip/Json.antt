-- ===== src/Ip/Json.antt =====
-- `String`, `MarshalJSON` and `UnmarshalJSON` of `IP4` and `IP4Net` (pkg/util/ip/ipnet.go). `net.ParseIP` and
-- `net.ParseCIDR` are parameters; bytes stand as a text.
use Prim.Native.Char.{Char, code}
use vpc_route_controller.Common.{
  ℕ, String, Option, [], ◌∷◌, List, nat_eq, if◌then◌else◌, concat, Result, ok, err, Outcome, done,
  panicked,
}
use vpc_route_controller.Ip.Addr.{string_sep, parse_ip4}
use vpc_route_controller.Ip.Net.{Ip4Net, net_string_sep}
use vpc_route_controller.Ip.Convert.{from_ip_net}

abbrev quote : String
quote = "\""

-- `IP4.String`: package net prints the 16-byte form of an IPv4 address in four decimals.
unfoldable pub string_of : ℕ → String
string_of ip = string_sep "." ip

-- `IP4Net.String`
unfoldable pub net_string_of : Ip4Net → String
net_string_of n = net_string_sep "." "/" n

unfoldable pub drop_left : String → String
drop_left String.[] = ""
drop_left (String.◌∷◌ c s) =
    let rest = drop_left s in if nat_eq (code c) 34 then rest else String.◌∷◌ c s

-- A character before what is left of a text from which the quotes at its end are dropped.
unfoldable pub keep : Char → String → String
keep c String.[] = if nat_eq (code c) 34 then "" else String.◌∷◌ c ""
keep c (String.◌∷◌ d s) = String.◌∷◌ c (String.◌∷◌ d s)

unfoldable pub drop_right : String → String
unfolding keep
drop_right String.[] = ""
drop_right (String.◌∷◌ c s) = keep c (drop_right s)

-- `bytes.Trim(j, "\"")`
unfoldable pub trim : String → String
unfolding drop_left drop_right
trim j = drop_left (drop_right j)

-- `IP4.MarshalJSON`
unfoldable pub marshal_ip : ℕ → String
unfolding string_of
marshal_ip ip = concat (quote ∷ string_of ip ∷ quote ∷ [])

-- `IP4.UnmarshalJSON`: the address that is stored, or the error.
unfoldable pub unmarshal_ip : (String → Option (List ℕ)) → String → Outcome (Result ℕ)
unfolding trim
unmarshal_ip parse_ip j = parse_ip4 parse_ip (trim j)

-- `IP4Net.MarshalJSON`
unfoldable pub marshal_net : Ip4Net → String
unfolding net_string_of
marshal_net n = concat (quote ∷ net_string_of n ∷ quote ∷ [])

-- `IP4Net.UnmarshalJSON`: the network that is stored, or the error.
unfoldable pub unmarshal_net :
    (String → Result (List ℕ × List ℕ)) → String → Outcome (Result Ip4Net)
unfolding trim
unmarshal_net parse_cidr j = elim (parse_cidr (trim j)) [
  | err e ↦ done (err e)
  | ok net ↦ elim (from_ip_net net) [ done n ↦ done (ok n) | panicked ↦ panicked ]
]
