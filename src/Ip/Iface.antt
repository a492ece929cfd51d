-- ===== src/Ip/Iface.antt =====
-- pkg/util/ip/iface.go: which address and which interface the program takes. Packages netlink and net, which
-- ask the operating system, are parameters; one answer of theirs holds during a call.
use vpc_route_controller.Common.{
  ℕ, String, Bool, true, false, not, Option, none, some, List, [], ◌∷◌, Result, ok, err, Error,
  plain, nat_eq, leb, bit_and, ◌&&◌, ◌==◌, if◌then◌else◌,
}
use vpc_route_controller.Ip.Addr.{to4}

-- `netlink.Route`, as far as it is read: the text of the destination, if it has one, and the index of the
-- interface, where a negative one acts as zero.
pub record LinkRoute : Type 0 where
  pub dst : Option String
  pub link_index : ℕ

-- `netlink.AddrList` of an interface, the IPv4 routes of `netlink.RouteList`, `net.InterfaceByIndex` and
-- `net.Interfaces`, of interfaces `I`.
pub record System (I : Type 0) : Type 0 where
  pub addr_list : I → Result (List (List ℕ))
  pub route_list : Result (List LinkRoute)
  pub interface_by_index : ℕ → Result I
  pub interfaces : Result (List I)

abbrev pub no_address : Error
no_address = plain "No IPv4 address found for given interface"

-- `IsLinkLocalUnicast` of an address in its IPv4 form.
abbrev pub is_link_local_unicast : List ℕ → Bool
is_link_local_unicast (a ∷ b ∷ c ∷ d ∷ []) = nat_eq a 169 && nat_eq b 254
is_link_local_unicast _ = false

-- `IsGlobalUnicast` of an address in its IPv4 form: neither the broadcast address nor 0.0.0.0, no loopback, no
-- multicast and no link-local address.
abbrev pub is_global_unicast : List ℕ → Bool
is_global_unicast (a ∷ b ∷ c ∷ d ∷ []) =
    not (nat_eq a 255 && nat_eq b 255 && nat_eq c 255 && nat_eq d 255)
    && not (nat_eq a 0 && nat_eq b 0 && nat_eq c 0 && nat_eq d 0)
    && not (nat_eq a 127)
    && not (nat_eq (bit_and a 240) 224)
    && not (nat_eq a 169 && nat_eq b 254)
is_global_unicast _ = false

abbrev pub is_nil : List ℕ → Bool
is_nil [] = true
is_nil (b ∷ bs) = false

unfoldable pub bytes_eq : List ℕ → List ℕ → Bool
bytes_eq [] [] = true
bytes_eq (x ∷ xs) (y ∷ ys) = nat_eq x y && bytes_eq xs ys
bytes_eq _ _ = false

-- The loop of `GetIfaceIP4Addr`, with the link-local address found so far.
unfoldable pub pick_addr : List (List ℕ) → Option (List ℕ) → Result (List ℕ)
unfolding to4
pick_addr [] none = err no_address
pick_addr [] (some ll) = ok ll
pick_addr (ip ∷ ips) ll =
    let skip = pick_addr ips ll in
    let keep = pick_addr ips (some ip) in
    if is_nil (to4 ip)
    then skip
    else if is_global_unicast (to4 ip)
    then ok ip
    else if is_link_local_unicast (to4 ip)
    then keep
    else skip

-- The loop of `GetIfaceIP4AddrMatch`; `Equal` compares the IPv4 forms.
unfoldable pub match_addr : List (List ℕ) → List ℕ → Option Error
unfolding to4 bytes_eq
match_addr [] wanted = some no_address
match_addr (ip ∷ ips) wanted =
    let rest = match_addr ips wanted in
    if not (is_nil (to4 ip)) && bytes_eq (to4 ip) (to4 wanted) then none else rest

module _ {I : Type 0} (system : System I) where
  -- `GetIfaceIP4Addr`
  unfoldable pub get_iface_ip4_addr : I → Result (List ℕ)
  unfolding pick_addr
  get_iface_ip4_addr iface = elim (system.addr_list iface) [
    | err e ↦ err e
    | ok ips ↦ pick_addr ips none
  ]

  -- `GetIfaceIP4AddrMatch`
  unfoldable pub get_iface_ip4_addr_match : I → List ℕ → Option Error
  unfolding match_addr
  get_iface_ip4_addr_match iface wanted = elim (system.addr_list iface) [
    | err e ↦ some e
    | ok ips ↦ match_addr ips wanted
  ]

  abbrev is_default : Option String → Bool
  is_default none = true
  is_default (some text) = text == "0.0.0.0/0"

  -- The loop of `GetDefaultGatewayIface`.
  unfoldable pub default_of : List LinkRoute → Result I
  default_of [] = err (plain "Unable to find default route")
  default_of (route ∷ routes) =
      let rest = default_of routes in
      if is_default route.dst
      then (if leb route.link_index 0
          then err (plain "Found default route but could not determine interface")
          else system.interface_by_index route.link_index)
      else rest

  -- `GetDefaultGatewayIface`
  unfoldable pub get_default_gateway_iface : Result I
  unfolding default_of
  get_default_gateway_iface = elim system.route_list [
    | err e ↦ err e
    | ok routes ↦ default_of routes
  ]

  -- The loop of `GetInterfaceByIP`.
  unfoldable pub interface_of : List I → List ℕ → Result I
  unfolding get_iface_ip4_addr_match
  interface_of [] ip = err (plain "No interface with given IP found")
  interface_of (iface ∷ ifaces) ip =
      let rest = interface_of ifaces ip in
      elim (get_iface_ip4_addr_match iface ip) [ none ↦ ok iface | some e ↦ rest ]

  -- `GetInterfaceByIP`
  unfoldable pub get_interface_by_ip : List ℕ → Result I
  unfolding interface_of
  get_interface_by_ip ip = elim system.interfaces [
    | err e ↦ err e
    | ok ifaces ↦ interface_of ifaces ip
  ]
