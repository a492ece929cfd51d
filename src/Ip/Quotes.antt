-- ===== src/Ip/Quotes.antt =====
-- What `UnmarshalJSON` makes of what `MarshalJSON` writes, for addresses and networks
-- (pkg/util/ip/ipnet.go).
use Prim.Native.Char.{Char, code}
use Prim.Native.Nat.{Ordering, compare}
use Prim.Native.String.{◌++◌}
use text.Mathlib.TextLemmas.{nil-append, cons-append, append-nil}
use vpc_route_controller.Common.{
  ℕ, zero, suc, ◌/◌, ◌%◌, String, true, false, Option, some, [], ◌∷◌, List, nat_eq, ◌≡◌, refl, ap,
  ◌∙◌, concat, digit, decimal_from, decimal, Result, ok, done, arith,
}
use vpc_route_controller.Ip.Addr.{IsAddr, octets, string_sep, parse_ip4, to_ip}
use vpc_route_controller.Ip.Octets.{bytes, from_ip-to_ip}
use vpc_route_controller.Ip.Net.{Ip4Net, IsNet, network, net_string_sep}
use vpc_route_controller.Ip.Convert.{from_ip_net, cidr_mask}
use vpc_route_controller.Ip.Forms.{from_ip_net-bytes}
use vpc_route_controller.Ip.Blocks.{network-IsNet}
use vpc_route_controller.Ip.Json.{
  string_of, net_string_of, drop_left, keep, drop_right, trim, marshal_ip, unmarshal_ip,
  marshal_net, unmarshal_net,
}

-- No character is a quote.
unfoldable Plain : String → Type 0
Plain String.[] = Unit
Plain (String.◌∷◌ c s) = (nat_eq (code c) 34 ≡ false) × Plain s

Plain-append : (s t : String) → Plain s → Plain t → Plain (s ++ t)
unfolding Plain
Plain-append String.[] t ps pt = rw (nil-append t) pt
Plain-append (String.◌∷◌ c s) t (pc, ps) pt = rw (cons-append c s t) (pc, Plain-append s t ps pt)

digit-Plain : (n : ℕ) → Plain (digit n)
unfolding Plain digit
digit-Plain zero = (refl, tt)
digit-Plain (suc zero) = (refl, tt)
digit-Plain (suc (suc zero)) = (refl, tt)
digit-Plain (suc (suc (suc zero))) = (refl, tt)
digit-Plain (suc (suc (suc (suc zero)))) = (refl, tt)
digit-Plain (suc (suc (suc (suc (suc zero))))) = (refl, tt)
digit-Plain (suc (suc (suc (suc (suc (suc zero)))))) = (refl, tt)
digit-Plain (suc (suc (suc (suc (suc (suc (suc zero))))))) = (refl, tt)
digit-Plain (suc (suc (suc (suc (suc (suc (suc (suc zero)))))))) = (refl, tt)
digit-Plain (suc (suc (suc (suc (suc (suc (suc (suc (suc n))))))))) = (refl, tt)

decimal_from-Plain : (f n : ℕ) (acc : String) → Plain acc → Plain (decimal_from f n acc)
unfolding decimal_from
decimal_from-Plain zero n acc p = p
decimal_from-Plain (suc f) n acc p =
    by_size (compare n 10) (Plain-append (digit n) acc (digit-Plain n) p) (
      decimal_from-Plain f (n / 10) (digit (n % 10) ++ acc)
        (Plain-append (digit (n % 10)) acc (digit-Plain (n % 10)) p))
  where
    by_size :
        (o : Ordering)
        → Plain (digit n ++ acc)
        → Plain (decimal_from f (n / 10) (digit (n % 10) ++ acc))
        → Plain (elim o as (λ _. String) [
          | Ordering.lt ↦ digit n ++ acc
          | _ ↦ decimal_from f (n / 10) (digit (n % 10) ++ acc)
        ])
    by_size Ordering.lt small large = small
    by_size Ordering.eq small large = large
    by_size Ordering.gt small large = large

decimal-Plain : (n : ℕ) → Plain (decimal n)
unfolding decimal Plain
decimal-Plain n = decimal_from-Plain (suc n) n "" tt

drop_left-Plain : (s : String) → Plain s → drop_left s ≡ s
unfolding Plain drop_left
drop_left-Plain String.[] p = refl
drop_left-Plain (String.◌∷◌ c s) (pc, ps) = rw pc refl

drop_right-Plain : (s t : String) → Plain s → drop_right t ≡ "" → drop_right (s ++ t) ≡ s
unfolding Plain drop_right keep
drop_right-Plain String.[] t p e = rw (nil-append t) e
drop_right-Plain (String.◌∷◌ c s) t (pc, ps) e =
    rw (cons-append c s t) (rw (drop_right-Plain s t ps e) (kept s))
  where
    kept : (u : String) → keep c u ≡ String.◌∷◌ c u
    kept String.[] = unfold keep in rw pc refl
    kept (String.◌∷◌ d u) = unfold keep in refl

-- A text of one character, which is a quote.
unfoldable IsQuote : String → Type 0
IsQuote (String.◌∷◌ c String.[]) = nat_eq (code c) 34 ≡ true
IsQuote _ = true ≡ false

drop_left-keep :
    (c : Char) (s : String) → nat_eq (code c) 34 ≡ true → Plain s → drop_left (keep c s) ≡ s
unfolding drop_left keep
drop_left-keep c String.[] quoted p = rw quoted refl
drop_left-keep c (String.◌∷◌ d s) quoted p = rw quoted (drop_left-Plain (String.◌∷◌ d s) p)

drop_right-quote : (c : Char) → nat_eq (code c) 34 ≡ true → drop_right (String.◌∷◌ c "" ++ "") ≡ ""
unfolding drop_right keep
drop_right-quote c quoted = rw (append-nil (String.◌∷◌ c "")) (rw quoted refl)

trim-quoted : (q s : String) → IsQuote q → Plain s → trim (concat (q ∷ s ∷ q ∷ [])) ≡ s
unfolding trim IsQuote drop_right
trim-quoted String.[] s quoted p = absurd (ground (arith, quoted))
trim-quoted (String.◌∷◌ c String.[]) s quoted p =
    let q = String.◌∷◌ c "" in
    let opened : q ++ (s ++ (q ++ "")) ≡ String.◌∷◌ c (s ++ (q ++ "")) =
      cons-append c "" (s ++ (q ++ "")) ∙ ap (String.◌∷◌ c) (nil-append (s ++ (q ++ ""))) in
    ap (λ j. drop_left (drop_right j)) opened
    ∙ (ap (λ rest. drop_left (keep c rest))
          (drop_right-Plain s (q ++ "") p (drop_right-quote c quoted))
        ∙ drop_left-keep c s quoted p)
trim-quoted (String.◌∷◌ c (String.◌∷◌ d s')) s quoted p = absurd (ground (arith, quoted))

string_sep-Plain : (sep : String) (ip : ℕ) → Plain sep → Plain (string_sep sep ip)
unfolding string_sep Plain
string_sep-Plain sep ip p =
    let o = octets ip in
    let last = Plain-append (decimal o.d) "" (decimal-Plain o.d) tt in
    let third = Plain-append (decimal o.c) _ (decimal-Plain o.c) (Plain-append sep _ p last) in
    let second = Plain-append (decimal o.b) _ (decimal-Plain o.b) (Plain-append sep _ p third) in
    Plain-append (decimal o.a) _ (decimal-Plain o.a) (Plain-append sep _ p second)

string_of-Plain : (ip : ℕ) → Plain (string_of ip)
unfolding string_of Plain
string_of-Plain ip = string_sep-Plain "." ip (refl, tt)

net_string_of-Plain : (n : Ip4Net) → Plain (net_string_of n)
unfolding net_string_of net_string_sep Plain
net_string_of-Plain n =
    Plain-append (string_sep "." n.ip) _ (string_sep-Plain "." n.ip (refl, tt)) (
      Plain-append "/" _ (refl, tt)
        (Plain-append (decimal n.prefix_len) "" (decimal-Plain n.prefix_len) tt))

-- UnmarshalJSON gives back the address that MarshalJSON wrote, where ParseIP reads its text.
unmarshal_ip-marshal_ip :
    (parse_ip : String → Option (List ℕ)) (ip : ℕ)
    → IsAddr ip
    → parse_ip (string_of ip) ≡ some (to_ip ip)
    → unmarshal_ip parse_ip (marshal_ip ip) ≡ done (ok ip)
unfolding unmarshal_ip marshal_ip parse_ip4 IsQuote
unmarshal_ip-marshal_ip parse_ip ip addr parses =
    ap (parse_ip4 parse_ip) (trim-quoted "\"" (string_of ip) refl (string_of-Plain ip))
    ∙ rw (parses, parse_ip4) (rw (from_ip-to_ip ip addr) refl)

unmarshal_net_from :
    (parse_cidr : String → Result (List ℕ × List ℕ)) (j s : String) (net : List ℕ × List ℕ)
    (n : Ip4Net)
    → trim j ≡ s
    → parse_cidr s ≡ ok net
    → from_ip_net net ≡ done n
    → unmarshal_net parse_cidr j ≡ done (ok n)
unfolding unmarshal_net
unmarshal_net_from parse_cidr j s net n trimmed parses from =
    rw (trimmed, unmarshal_net) (rw parses (rw from refl))

-- Where ParseCIDR answers, for the text that String prints, the address with the bits of the host
-- cleared in four bytes and the mask, UnmarshalJSON reads back from what MarshalJSON wrote the
-- network with those bits cleared, for a prefix of at most 32 bits.
pub unmarshal_net-marshal_net :
    (parse_cidr : String → Result (List ℕ × List ℕ)) (n : Ip4Net)
    → IsNet n
    → parse_cidr (net_string_of n) ≡ ok (bytes (octets (network n).ip), cidr_mask n.prefix_len)
    → unmarshal_net parse_cidr (marshal_net n) ≡ done (ok (network n))
unfolding marshal_net IsQuote
unmarshal_net-marshal_net parse_cidr n valid parses =
    unmarshal_net_from parse_cidr (marshal_net n) (net_string_of n)
      (bytes (octets (network n).ip), cidr_mask n.prefix_len) (network n)
      (trim-quoted "\"" (net_string_of n) refl (net_string_of-Plain n)) parses
      (parsed (network-IsNet n valid))
  where
    parsed :
        IsNet (network n)
        → from_ip_net (bytes (octets (network n).ip), cidr_mask n.prefix_len) ≡ done (network n)
    parsed v = unfold network in from_ip_net-bytes (network n) v
