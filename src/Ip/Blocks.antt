-- ===== src/Ip/Blocks.antt =====
-- `Network`, `Next`: the block of a network, and the one after it.
use native.Mathlib.Nat.{
  div-mul-le_self, mul-div_left, add-mul-div_right, div-eq_of_lt, lt-div-mul-add,
}
use vpc_route_controller.Common.{
  ℕ, ◌+◌, ◌-◌, ◌*◌, ◌/◌, ◌%◌, ◌^◌, ◌≤◌, ◌<◌, ◌≡◌, ◌≢◌, ◌↔◌, refl, sym, ap, ◌∙◌, true, false,
  Bool-cases, inl, inr, arith, ltb,
}
use vpc_route_controller.Ip.Addr.{IsAddr}
use vpc_route_controller.Ip.Net.{Ip4Net, IsNet, network, next, contains, sub_uint}
use vpc_route_controller.Ip.Masks.{block, block_pos, block_half}
use vpc_route_controller.Ip.Ranges.{contains-same_block, network-ip}

pub network-IsNet : (n : Ip4Net) → IsNet n → IsNet (network n)
unfolding network
network-IsNet n v = record {
  addr = omega (arith, network-ip n v, div-mul-le_self n.ip (block n.prefix_len), v.addr);
  short = v.short;
}

network-prefix_len : (n : Ip4Net) → (network n).prefix_len ≡ n.prefix_len
unfolding network
network-prefix_len n = refl

network_idem-ip : (n : Ip4Net) → IsNet n → (network (network n)).ip ≡ (network n).ip
unfolding network
network_idem-ip n v =
    let s = block n.prefix_len in
    let again : (network n).ip / s ≡ n.ip / s =
      ap (λ (t : ℕ). t / s) (network-ip n v) ∙ mul-div_left (n.ip / s) (block_pos n.prefix_len) in
    network-ip (network n) (network-IsNet n v) ∙ ap (λ (t : ℕ). t * s) again ∙ sym (network-ip n v)

-- For a network with a prefix of at most 32 bits, Network clears the host bits once and for all,
-- keeps the prefix, and contains the same addresses.
pub network_canonical :
    (n : Ip4Net) (x : ℕ)
    → IsNet n
    → IsAddr x
    → IsNet (network n)
      × (network (network n) ≡ network n)
      × ((network n).prefix_len ≡ n.prefix_len)
      × ((contains (network n) x ≡ true) ↔ (contains n x ≡ true))
unfolding network
network_canonical n x v hx =
    let s = block n.prefix_len in
    let again : (network n).ip / s ≡ n.ip / s =
      ap (λ (t : ℕ). t / s) (network-ip n v) ∙ mul-div_left (n.ip / s) (block_pos n.prefix_len) in
    let same = contains-same_block n x v hx in
    let same' = contains-same_block (network n) x (network-IsNet n v) hx in
    (
      network-IsNet n v,
      λ i. record { ip = network_idem-ip n v i; prefix_len = n.prefix_len },
      refl,
      (λ c. same.1 (sym again ∙ same'.0 c), λ c. same'.1 (again ∙ same.0 c)),
    )

next-ip :
    (n : Ip4Net) → IsNet n → 0 < n.prefix_len → (next n).ip ≡ (n.ip + block n.prefix_len) % 2 ^ 32
unfolding next
next-ip n v pos =
    let k : sub_uint 32 n.prefix_len ≡ 32 - n.prefix_len = omega arith in
    rw k (grind (arith, block_half n.prefix_len pos v.short))

next-IsNet : (n : Ip4Net) → IsNet n → IsNet (next n)
unfolding next
next-IsNet n v = record { addr = omega arith; short = v.short }

next_moves :
    (n : Ip4Net)
    → IsNet n
    → 0 < n.prefix_len
    → (next n).ip / block n.prefix_len ≢ n.ip / block n.prefix_len
next_moves n v pos e = elim (Bool-cases (ltb (n.ip + s) (2 ^ 32))) [
  | inl fits ↦
      let low : n.ip + s < 2 ^ 32 = ground arith in
      let up : (n.ip + 1 * s) / s ≡ n.ip / s + 1 = add-mul-div_right n.ip 1 spos in
      let same : (next n).ip ≡ n.ip + 1 * s = omega (arith, next-ip n v pos) in
      let same' : (next n).ip / s ≡ (n.ip + 1 * s) / s = ap (λ (t : ℕ). t / s) same in
      absurd (omega (arith, up, same', e))
  | inr wraps ↦
      let high : 2 ^ 32 ≤ n.ip + s = ground arith in
      let low : (next n).ip < s = omega (arith, next-ip n v pos, v.addr) in
      let first : (next n).ip / s ≡ 0 = div-eq_of_lt low in
      let last : n.ip < n.ip / s * s + s = lt-div-mul-add spos in
      let zero_block : n.ip / s * s ≡ 0 * s = ap (λ (t : ℕ). t * s) (sym e ∙ first) in
      absurd (omega (arith, last, zero_block, block_half n.prefix_len pos v.short))
]
  where
    s : ℕ
    s = block n.prefix_len

    spos : 0 < s
    spos = block_pos n.prefix_len

-- For a network with a prefix from 1 to 32, no address that it contains is in Next.
pub next_disjoint :
    (n : Ip4Net) (x : ℕ)
    → IsNet n
    → 0 < n.prefix_len
    → IsAddr x
    → contains n x ≡ true
    → contains (next n) x ≡ false
unfolding next
next_disjoint n x v pos hx c = elim (Bool-cases (contains (next n) x)) [
  | inl both ↦ absurd (
      next_moves n v pos (
        (contains-same_block (next n) x (next-IsNet n v) hx).0 both
        ∙ sym ((contains-same_block n x v hx).0 c)))
  | inr apart ↦ apart
]
