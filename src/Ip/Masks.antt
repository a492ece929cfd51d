-- ===== src/Ip/Masks.antt =====
-- The mask of a prefix of at most 32 bits, and what `&` with it leaves.
use native.Mathlib.Nat.{div-add-mod', mod-lt, one-le-pow, div-lt_iff_lt-mul, pow-suc}
use vpc_route_controller.Common.{
  ℕ, zero, suc, ◌+◌, ◌-◌, ◌*◌, ◌/◌, ◌%◌, ◌^◌, ◌≤◌, ◌<◌, bit_and, ◌≡◌, refl, sym, ap, ◌∙◌, subst,
  Bool, true, ◌&&◌, nat_eq, leb, arith,
}
use vpc_route_controller.Common.Bits.{bit_and_high}
use vpc_route_controller.Ip.Addr.{IsAddr}
use vpc_route_controller.Ip.Net.{Ip4Net, mask}

-- The number of addresses of a network with a prefix of `p` bits.
abbrev pub block : ℕ → ℕ
block p = 2 ^ (32 - p)

unfoldable pub holds_below : ℕ → (ℕ → Bool) → Bool
holds_below zero test = true
holds_below (suc n) test = test n && holds_below n test

pub holds_at : (n : ℕ) (test : ℕ → Bool) (x : ℕ) → holds_below n test ≡ true → x < n → test x ≡ true
unfolding holds_below
holds_at zero test x h lt = absurd (omega arith)
holds_at (suc n) test x h lt = ground (arith, holds_at n test x)

pub nat_eq→eq : (a b : ℕ) → nat_eq a b ≡ true → a ≡ b
nat_eq→eq a b h = ground arith

leb→le : (a b : ℕ) → leb a b ≡ true → a ≤ b
leb→le a b h = ground arith

mask_table :
    holds_below 33
      (λ p. nat_eq (mask (record { ip = 0; prefix_len = p })) ((2 ^ p - 1) * 2 ^ (32 - p)))
    ≡ true
unfolding holds_below mask
mask_table = refl

block_table : holds_below 33 (λ p. nat_eq (2 ^ p * 2 ^ (32 - p)) (2 ^ 32)) ≡ true
unfolding holds_below
block_table = refl

pub mask_lem :
    (n : Ip4Net) → n.prefix_len ≤ 32 → mask n ≡ (2 ^ n.prefix_len - 1) * block n.prefix_len
unfolding mask
mask_lem n h = nat_eq→eq _ _ (holds_at 33 _ n.prefix_len mask_table (omega arith))

pub blocks_fill : (p : ℕ) → p ≤ 32 → 2 ^ p * block p ≡ 2 ^ 32
blocks_fill p h = nat_eq→eq _ _ (holds_at 33 _ p block_table (omega arith))

pub block_pos : (p : ℕ) → 0 < block p
block_pos p = one-le-pow (32 - p) 2 (omega arith)

-- `&` with the mask clears the host bits.
pub bit_and-mask :
    (n : Ip4Net) (x : ℕ)
    → n.prefix_len ≤ 32
    → IsAddr x
    → bit_and x (mask n) ≡ x / block n.prefix_len * block n.prefix_len
bit_and-mask n x h hx =
    let p = n.prefix_len in
    let top : x / block p < 2 ^ p =
      (div-lt_iff_lt-mul (block_pos p)).1 (subst (λ t. x < t) (sym (blocks_fill p h)) hx) in
    rw (mask_lem n h) (
      ap (λ (t : ℕ). bit_and t ((2 ^ p - 1) * block p)) (sym (div-add-mod' x (block p)))
      ∙ bit_and_high (32 - p) p (x / block p) (x % block p) top (mod-lt x (block_pos p)))

pub two_pow_add : (a b : ℕ) → 2 ^ a * 2 ^ b ≡ 2 ^ (a + b)
two_pow_add a zero = let e : a + 0 ≡ a = omega arith in rw e (omega arith)
two_pow_add a (suc b) =
    let e : a + suc b ≡ suc (a + b) = omega arith in
    rw (e, pow-suc 2 (a + b), pow-suc 2 b) (omega (arith, two_pow_add a b))

half_table : holds_below 32 (λ p. leb (2 ^ (32 - (p + 1)) * 2) (2 ^ 32)) ≡ true
unfolding holds_below
half_table = refl

-- A prefix of one bit or more leaves at most half of the addresses.
pub block_half : (p : ℕ) → 0 < p → p ≤ 32 → block p * 2 ≤ 2 ^ 32
block_half p pos h =
    let e : p - 1 + 1 ≡ p = omega arith in
    let t : leb (2 ^ (32 - (p - 1 + 1)) * 2) (2 ^ 32) ≡ true =
      holds_at 32 (λ p. leb (2 ^ (32 - (p + 1)) * 2) (2 ^ 32)) (p - 1) half_table (omega arith) in
    leb→le _ _ (rw e at t)
