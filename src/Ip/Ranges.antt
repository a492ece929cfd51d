-- ===== src/Ip/Ranges.antt =====
-- What a network stands for: the addresses of one aligned block.
use native.Mathlib.Nat.{
  div-mul-le_self, lt-div-mul-add, add-mul-div_right, div-eq_of_lt, mul-div_left,
  div-div-eq-div-mul,
}
use vpc_route_controller.Common.{
  ℕ, ◌+◌, ◌-◌, ◌*◌, ◌/◌, ◌^◌, ◌≤◌, ◌<◌, ◌≡◌, refl, sym, ap, ◌∙◌, ◌↔◌, true, nat_eq, ltb, Bool-cases,
  inl, inr, arith, if◌then◌else◌,
}
use vpc_route_controller.Ip.Addr.{IsAddr}
use vpc_route_controller.Ip.Net.{Ip4Net, IsNet, network, contains, overlaps}
use vpc_route_controller.Ip.Masks.{block, block_pos, bit_and-mask, two_pow_add}

nat_eq_iff : (a b : ℕ) → (nat_eq a b ≡ true) ↔ (a ≡ b)
nat_eq_iff a b = ground arith

div_of_bounds : (q s x : ℕ) → 0 < s → q * s ≤ x → x < q * s + s → x / s ≡ q
div_of_bounds q s x pos lo hi =
    let e : x ≡ x - q * s + q * s = omega arith in
    let rest : (x - q * s) / s ≡ 0 = div-eq_of_lt (omega arith) in
    ap (λ (t : ℕ). t / s) e ∙ add-mul-div_right (x - q * s) q pos ∙ omega (arith, rest)

times_cancel : (a b s : ℕ) → 0 < s → a * s ≡ b * s → a ≡ b
times_cancel a b s pos e = sym (mul-div_left a pos) ∙ ap (λ (t : ℕ). t / s) e ∙ mul-div_left b pos

-- An address is in a network exactly when both lie in the same block.
pub contains-same_block :
    (n : Ip4Net) (x : ℕ)
    → IsNet n
    → IsAddr x
    → (contains n x ≡ true) ↔ (n.ip / block n.prefix_len ≡ x / block n.prefix_len)
unfolding contains
contains-same_block n x v hx =
    let s = block n.prefix_len in
    rw (bit_and-mask n n.ip v.short v.addr, bit_and-mask n x v.short hx)
      (
        λ e. times_cancel _ _ s (block_pos n.prefix_len) ((nat_eq_iff _ _).0 e),
        λ e. (nat_eq_iff _ _).1 (ap (λ (t : ℕ). t * s) e),
      )

pub network-ip :
    (n : Ip4Net) → IsNet n → (network n).ip ≡ n.ip / block n.prefix_len * block n.prefix_len
unfolding network
network-ip n v = bit_and-mask n n.ip v.short v.addr

-- A network with a prefix of at most 32 bits contains an address exactly when the address lies in
-- the range that starts at its network address and has as many addresses as the host bits count.
pub contains-range :
    (n : Ip4Net) (x : ℕ)
    → IsNet n
    → IsAddr x
    → (contains n x ≡ true) ↔ (((network n).ip ≤ x) × (x < (network n).ip + block n.prefix_len))
contains-range n x v hx =
    let s = block n.prefix_len in
    let pos = block_pos n.prefix_len in
    rw (network-ip n v) (
      λ h.
          let e = (contains-same_block n x v hx).0 h in
          rw e (div-mul-le_self x s, lt-div-mul-add pos),
      λ h. (contains-same_block n x v hx).1 (sym (div_of_bounds (n.ip / s) s x pos h.0 h.1)),
    )

-- A shorter prefix sees the block of a longer one as a whole.
coarser : (p q x y : ℕ) → p ≤ q → q ≤ 32 → x / block q ≡ y / block q → x / block p ≡ y / block p
coarser p q x y h hq e = sym (split x) ∙ ap (λ (t : ℕ). t / 2 ^ (q - p)) e ∙ split y
  where
    split : (z : ℕ) → z / block q / 2 ^ (q - p) ≡ z / block p
    split z =
        let e : 32 - q + (q - p) ≡ 32 - p = omega arith in
        div-div-eq-div-mul z (block q) (2 ^ (q - p))
        ∙ ap (λ (t : ℕ). z / t) (two_pow_add (32 - q) (q - p) ∙ ap (λ (t : ℕ). 2 ^ t) e)

-- The longer prefix's address decides whether the networks meet.
meet_iff :
    (n m : Ip4Net)
    → IsNet n
    → IsNet m
    → n.prefix_len ≤ m.prefix_len
    → (contains n m.ip ≡ true)
      ↔ ((x : ℕ) × IsAddr x × (contains n x ≡ true) × (contains m x ≡ true))
meet_iff n m vn vm h = (
  λ c. (m.ip, vm.addr, c, (contains-same_block m m.ip vm vm.addr).1 refl),
  λ (x, hx, cn, cm). (contains-same_block n m.ip vn vm.addr).1 (
      (contains-same_block n x vn hx).0 cn
      ∙ sym (
          coarser n.prefix_len m.prefix_len m.ip x h vm.short
            ((contains-same_block m x vm hx).0 cm))),
)

overlaps_by :
    (n m : Ip4Net)
    → overlaps n m ≡ (if ltb n.prefix_len m.prefix_len then contains n m.ip else contains m n.ip)
unfolding overlaps contains
overlaps_by n m = ground arith

-- Two networks with prefixes of at most 32 bits overlap by Overlaps exactly when some address is
-- in both by Contains.
pub overlaps_iff :
    (n m : Ip4Net)
    → IsNet n
    → IsNet m
    → (overlaps n m ≡ true) ↔ ((x : ℕ) × IsAddr x × (contains n x ≡ true) × (contains m x ≡ true))
overlaps_iff n m vn vm = elim (Bool-cases (ltb n.prefix_len m.prefix_len)) [
  | inl lt ↦ rw (overlaps_by n m, lt) (meet_iff n m vn vm (ground arith))
  | inr ge ↦
      rw (overlaps_by n m, ge)
        (let b = meet_iff m n vm vn (ground arith) in
          (
            λ c. let (x, hx, cm, cn) = b.0 c in (x, hx, cn, cm),
            λ (x, hx, cn, cm). b.1 (x, hx, cm, cn),
          ))
]
