-- ===== src/Common/Bits.antt =====
-- `&` with a mask of high bits and `|` of disjoint fields, as arithmetic, for every width.
use Prim.Native.Nat.{
  ℕ, zero, suc, ◌+◌, ◌-◌, ◌*◌, ◌/◌, ◌%◌, ◌^◌, ◌≤◌, ◌<◌, min, max, bit_and, bit_or, digits,
  bit_and-bitwise, bit_or-bitwise,
}
use mathlib.Core.Path.{◌≡◌, refl, ap}
use native.Mathlib.Nat.{pow-suc, one-le-pow}
use native.Mathlib.Omega.{arith}

module _ (z : ℕ → ℕ) (f : ℕ → ℕ → ℕ) where
  -- A round of `digits` more than the first number has digits changes nothing.
  digits_spare : (n a b : ℕ) → a ≤ n → digits z f (suc n) a b ≡ digits z f n a b
  digits_spare zero zero b h = refl
  digits_spare zero (suc a) b h = absurd (omega arith)
  digits_spare (suc n) zero b h = refl
  digits_spare (suc n) (suc a) b h = omega (arith, digits_spare n (suc a / 2) (b / 2) (omega arith))

  digits_enough : (k a b : ℕ) → digits z f (k + a) a b ≡ digits z f a a b
  digits_enough zero a b = ap (λ (n : ℕ). digits z f n a b) (omega arith)
  digits_enough (suc k) a b =
      let e : suc k + a ≡ suc (k + a) = omega arith in
      rw (e, digits_spare (k + a) a b (omega arith)) (digits_enough k a b)

  digits_halve :
      (a b : ℕ)
      → digits z f (suc a) (suc a) b
        ≡ digits z f (suc a / 2) (suc a / 2) (b / 2) * 2 + f (suc a % 2) (b % 2)
  digits_halve a b =
      let e : a ≡ a - suc a / 2 + suc a / 2 = omega arith in
      let same : digits z f a (suc a / 2) (b / 2)
          ≡ digits z f (a - suc a / 2 + suc a / 2) (suc a / 2) (b / 2) =
        ap (λ (n : ℕ). digits z f n (suc a / 2) (b / 2)) e in
      omega (arith, same, digits_enough (a - suc a / 2) (suc a / 2) (b / 2))

zero-bit_and : (b : ℕ) → bit_and 0 b ≡ 0
zero-bit_and b = bit_and-bitwise 0 b

zero-bit_or : (b : ℕ) → bit_or 0 b ≡ b
zero-bit_or b = bit_or-bitwise 0 b

bit_and_halves : (a b : ℕ) → bit_and a b ≡ bit_and (a / 2) (b / 2) * 2 + min (a % 2) (b % 2)
bit_and_halves zero b = omega (arith, zero-bit_and b, zero-bit_and (b / 2))
bit_and_halves (suc a) b = omega (
  arith,
  bit_and-bitwise (suc a) b,
  bit_and-bitwise (suc a / 2) (b / 2),
  digits_halve (λ _. zero) min a b,
)

bit_or_halves : (a b : ℕ) → bit_or a b ≡ bit_or (a / 2) (b / 2) * 2 + max (a % 2) (b % 2)
bit_or_halves zero b = omega (arith, zero-bit_or b, zero-bit_or (b / 2))
bit_or_halves (suc a) b = omega (
  arith,
  bit_or-bitwise (suc a) b,
  bit_or-bitwise (suc a / 2) (b / 2),
  digits_halve (λ b. b) max a b,
)

-- All ones in `m` places.
bit_and_ones : (m x : ℕ) → x < 2 ^ m → bit_and x (2 ^ m - 1) ≡ x
bit_and_ones zero zero h = zero-bit_and 0
bit_and_ones zero (suc x) h = absurd (omega arith)
bit_and_ones (suc m) x h =
    let p : 2 ^ suc m ≡ 2 ^ m * 2 = pow-suc 2 m in
    let one : 1 ≤ 2 ^ m = one-le-pow m 2 (omega arith) in
    let half : (2 ^ suc m - 1) / 2 ≡ 2 ^ m - 1 = omega arith in
    let top : bit_and (x / 2) ((2 ^ suc m - 1) / 2) ≡ x / 2 =
      rw half (bit_and_ones m (x / 2) (omega arith)) in
    omega (arith, bit_and_halves x (2 ^ suc m - 1), top)

-- `m` ones above `k` zeros keep the high part.
pub bit_and_high :
    (k m q r : ℕ)
    → q < 2 ^ m
    → r < 2 ^ k
    → bit_and (q * 2 ^ k + r) ((2 ^ m - 1) * 2 ^ k) ≡ q * 2 ^ k
bit_and_high zero m q r hq hr =
    let e : q * 2 ^ 0 + r ≡ q = omega arith in
    let f : (2 ^ m - 1) * 2 ^ 0 ≡ 2 ^ m - 1 = omega arith in
    rw (e, f, bit_and_ones m q hq) (omega arith)
bit_and_high (suc k) m q r hq hr =
    let p : 2 ^ suc k ≡ 2 ^ k * 2 = pow-suc 2 k in
    let px : q * 2 ^ suc k ≡ q * 2 ^ k * 2 = omega (arith, ap (λ (t : ℕ). q * t) p) in
    let pm : (2 ^ m - 1) * 2 ^ suc k ≡ (2 ^ m - 1) * 2 ^ k * 2 =
      omega (arith, ap (λ (t : ℕ). (2 ^ m - 1) * t) p) in
    let ex : (q * 2 ^ suc k + r) / 2 ≡ q * 2 ^ k + r / 2 = omega arith in
    let em : (2 ^ m - 1) * 2 ^ suc k / 2 ≡ (2 ^ m - 1) * 2 ^ k = omega arith in
    let half : bit_and ((q * 2 ^ suc k + r) / 2) ((2 ^ m - 1) * 2 ^ suc k / 2) ≡ q * 2 ^ k =
      rw (ex, em) (bit_and_high k m q (r / 2) hq (omega arith)) in
    omega (arith, bit_and_halves (q * 2 ^ suc k + r) ((2 ^ m - 1) * 2 ^ suc k), half)

-- A low field joined with a high one is their sum.
pub bit_or_low : (k q r : ℕ) → r < 2 ^ k → bit_or r (q * 2 ^ k) ≡ q * 2 ^ k + r
bit_or_low zero q zero h = omega (arith, zero-bit_or (q * 2 ^ 0))
bit_or_low zero q (suc r) h = absurd (omega arith)
bit_or_low (suc k) q r h =
    let p : 2 ^ suc k ≡ 2 ^ k * 2 = pow-suc 2 k in
    let px : q * 2 ^ suc k ≡ q * 2 ^ k * 2 = omega (arith, ap (λ (t : ℕ). q * t) p) in
    let ex : q * 2 ^ suc k / 2 ≡ q * 2 ^ k = omega arith in
    let half : bit_or (r / 2) (q * 2 ^ suc k / 2) ≡ q * 2 ^ k + r / 2 =
      rw ex (bit_or_low k q (r / 2) (omega arith)) in
    omega (arith, bit_or_halves r (q * 2 ^ suc k), half)
