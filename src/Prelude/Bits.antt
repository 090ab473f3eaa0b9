-- ===== src/Prelude/Bits.antt =====
-- Single bits of a word: reading one, setting one, and a shift to the left that drops what leaves
-- the word.
use Prim.Native.Nat.{
  ℕ, zero, suc, ◌+◌, ◌-◌, ◌*◌, ◌/◌, ◌%◌, ◌^◌, ◌≤◌, ◌<◌, min, max, digits, bitwise, bit_and, bit_or,
  bit_and-bitwise, bit_or-bitwise,
}
use mathlib.Core.Path.{◌≡◌, refl, ap, ◌∙◌}
use mathlib.Core.Bool.{Bool, true, false}
use mathlib.Core.Logic.{◌⊎◌, inl, inr}
use native.Mathlib.Nat.{pow-suc, mod-zero, mod-lt, div-add-mod, add-mul-mod_self_left, mod-eq_of_lt}
use native.Mathlib.Omega.{arith}
use olsr.Prelude.Tests.{leb, ◌==◌, if◌then◌else◌}

leb_cases : (a b : ℕ) → (a ≤ b) ⊎ (b < a)
leb_cases a b = ground arith

-- The native `&` and `|` are defined on binary digits, by a recursion on fuel. One round more than
-- the first number changes nothing, so any surplus does not.
module _ (only : ℕ → ℕ) (digit : ℕ → ℕ → ℕ) where
  one_more : (n a b : ℕ) → a ≤ n → digits only digit (suc n) a b ≡ digits only digit n a b
  one_more zero zero b le = refl
  one_more (suc n) zero b le = refl
  one_more zero (suc a) b le = absurd (omega arith)
  one_more (suc n) (suc a) b le =
      ap (λ (t : ℕ). t * 2 + digit (suc a % 2) (b % 2))
        (one_more n (suc a / 2) (b / 2) (omega arith))

  surplus : (n k a b : ℕ) → a ≤ k → k ≤ n → digits only digit n a b ≡ digits only digit k a b
  surplus zero k a b le lt = let none_left : k ≡ 0 = omega arith in rw none_left refl
  surplus (suc n) k a b le lt = elim (leb_cases k n) [
    | inl within ↦ one_more n a b (omega arith) ∙ surplus n k a b le within
    | inr beyond ↦ let all : k ≡ suc n = omega arith in rw all refl
  ]

  lowest_digit :
      (a b : ℕ)
      → bitwise only digit (suc a) b
        ≡ bitwise only digit (suc a / 2) (b / 2) * 2 + digit (suc a % 2) (b % 2)
  lowest_digit a b =
      ap (λ (t : ℕ). t * 2 + digit (suc a % 2) (b % 2))
        (surplus a (suc a / 2) (suc a / 2) (b / 2) (omega arith) (omega arith))

-- The lowest digit of `a | b`, and the rest.
pub bit_or_step : (a b : ℕ) → bit_or a b ≡ bit_or (a / 2) (b / 2) * 2 + max (a % 2) (b % 2)
bit_or_step a b = elim a as (λ a. bit_or a b ≡ bit_or (a / 2) (b / 2) * 2 + max (a % 2) (b % 2)) [
  | zero ↦ simp bit_or-bitwise (omega arith)
  | suc n ↦ simp bit_or-bitwise (lowest_digit (λ y. y) max n b)
]

-- The lowest digit of `a & b`, and the rest.
pub bit_and_step : (a b : ℕ) → bit_and a b ≡ bit_and (a / 2) (b / 2) * 2 + min (a % 2) (b % 2)
bit_and_step a b =
    elim a as (λ a. bit_and a b ≡ bit_and (a / 2) (b / 2) * 2 + min (a % 2) (b % 2)) [
      | zero ↦ simp bit_and-bitwise (omega arith)
      | suc n ↦ simp bit_and-bitwise (lowest_digit (λ y. 0) min n b)
    ]

-- `0` on the right: half of `a` is handled before `a`, up to a bound.
or_zero_below : (bound a : ℕ) → a ≤ bound → bit_or a 0 ≡ a
or_zero_below bound zero le = refl
or_zero_below zero (suc a) le = absurd (omega arith)
or_zero_below (suc bound) (suc a) le =
    omega (arith, bit_or_step (suc a) 0, or_zero_below bound (suc a / 2) (omega arith))

and_zero_below : (bound a : ℕ) → a ≤ bound → bit_and a 0 ≡ 0
and_zero_below bound zero le = refl
and_zero_below zero (suc a) le = absurd (omega arith)
and_zero_below (suc bound) (suc a) le =
    omega (arith, bit_and_step (suc a) 0, and_zero_below bound (suc a / 2) (omega arith))

bit_or-zero : (a : ℕ) → bit_or a 0 ≡ a
bit_or-zero a = or_zero_below a a (omega arith)

pub bit_and-zero : (a : ℕ) → bit_and a 0 ≡ 0
bit_and-zero a = and_zero_below a a (omega arith)

pub zero-bit_and : (b : ℕ) → bit_and 0 b ≡ 0
zero-bit_and b = simp bit_and-bitwise refl

-- Bit `k` of `a`.
unfoldable pub test_bit : ℕ → ℕ → Bool
test_bit a zero = a % 2 == 1
test_bit a (suc k) = test_bit (a / 2) k

-- `a |= 1 << i` sets bit `i` and keeps the others.
pub test_bit-bit_or :
    (a i k : ℕ) → test_bit (bit_or a (2 ^ i)) k ≡ (if i == k then true else test_bit a k)
unfolding test_bit
test_bit-bit_or a zero zero = ground (arith, bit_or_step a 1)
test_bit-bit_or a zero (suc k) =
    let e : bit_or a 1 / 2 ≡ a / 2 = omega (arith, bit_or_step a 1, bit_or-zero (a / 2)) in
    ground (arith, e)
test_bit-bit_or a (suc i) zero = ground (arith, bit_or_step a (2 ^ suc i), pow-suc 2 i)
test_bit-bit_or a (suc i) (suc k) =
    let h : 2 ^ suc i / 2 ≡ 2 ^ i = omega (arith, pow-suc 2 i) in
    let e : bit_or a (2 ^ suc i) / 2 ≡ bit_or (a / 2) (2 ^ i) =
      ground (arith, h, pow-suc 2 i, bit_or_step a (2 ^ suc i)) in
    ground (arith, e, test_bit-bit_or (a / 2) i k)

-- `a & (1 << i)` is not zero exactly if bit `i` is set.
pub bit_and-test_bit : (a i : ℕ) → (bit_and a (2 ^ i) == 0) ≡ (if test_bit a i then false else true)
unfolding test_bit
bit_and-test_bit a zero = ground (arith, bit_and_step a 1, bit_and-zero (a / 2))
bit_and-test_bit a (suc i) =
    let h : 2 ^ suc i / 2 ≡ 2 ^ i = omega (arith, pow-suc 2 i) in
    let e : bit_and a (2 ^ suc i) ≡ 2 * bit_and (a / 2) (2 ^ i) =
      ground (arith, h, pow-suc 2 i, bit_and_step a (2 ^ suc i)) in
    ground (arith, e, bit_and-test_bit (a / 2) i)

mod_double : (a m : ℕ) → a % (m * 2) ≡ 2 * (a / 2 % m) + a % 2
mod_double a zero = omega (arith, mod-zero a, mod-zero (a / 2))
mod_double a (suc m) =
    let r = 2 * (a / 2 % suc m) + a % 2 in
    let small : r < suc m * 2 = omega (arith, mod-lt (a / 2) {m = suc m} (omega arith)) in
    let split : a ≡ r + suc m * 2 * (a / 2 / suc m) = omega (arith, div-add-mod (a / 2) (suc m)) in
    ap (λ (t : ℕ). t % (suc m * 2)) split
    ∙ (add-mul-mod_self_left r (suc m * 2) (a / 2 / suc m) ∙ mod-eq_of_lt small)

half-mod : (a m : ℕ) → a % (m * 2) / 2 ≡ a / 2 % m
half-mod a m = omega (arith, mod_double a m)

low-mod : (a m : ℕ) → a % (m * 2) % 2 ≡ a % 2
low-mod a m = omega (arith, mod_double a m)

test_bit-mod : (a w k : ℕ) → k < w → test_bit (a % 2 ^ w) k ≡ test_bit a k
unfolding test_bit
test_bit-mod a zero k h = absurd (omega arith)
test_bit-mod a (suc w) zero h = ground (arith, pow-suc 2 w, low-mod a (2 ^ w))
test_bit-mod a (suc w) (suc k) h =
    rw (pow-suc 2 w, half-mod a (2 ^ w)) (test_bit-mod (a / 2) w k (omega arith))

-- `a <<= d` in a word of `w` bits.
test_bit-mul :
    (a d k : ℕ) → test_bit (a * 2 ^ d) k ≡ (if leb d k then test_bit a (k - d) else false)
unfolding test_bit
test_bit-mul a zero k = ground arith
test_bit-mul a (suc d) zero =
    let e : a * 2 ^ suc d % 2 ≡ 0 = omega (arith, ap (λ (t : ℕ). a * t) (pow-suc 2 d)) in
    let f : leb (suc d) 0 ≡ false = ground arith in rw (e, f)
test_bit-mul a (suc d) (suc k) =
    let e : a * 2 ^ suc d / 2 ≡ a * 2 ^ d = omega (arith, ap (λ (t : ℕ). a * t) (pow-suc 2 d)) in
    ground (arith, e, test_bit-mul a d k)

pub test_bit-shift :
    (a d w k : ℕ)
    → k < w
    → test_bit (a * 2 ^ d % 2 ^ w) k ≡ (if leb d k then test_bit a (k - d) else false)
test_bit-shift a d w k h = rw (test_bit-mod (a * 2 ^ d) w k h) (test_bit-mul a d k)

pub test_bit-zero : (k : ℕ) → test_bit 0 k ≡ false
unfolding test_bit
test_bit-zero zero = refl
test_bit-zero (suc k) = test_bit-zero k

-- `|` stays in the word.
pub bit_or-lt : (w a b : ℕ) → a < 2 ^ w → b < 2 ^ w → bit_or a b < 2 ^ w
bit_or-lt zero a b p q =
    let a_zero : a ≡ 0 = omega arith in
    let b_zero : b ≡ 0 = omega arith in rw (a_zero, b_zero) (omega arith)
bit_or-lt (suc w) a b p q = omega (
  arith,
  pow-suc 2 w,
  bit_or_step a b,
  bit_or-lt w (a / 2) (b / 2) (omega (arith, pow-suc 2 w)) (omega (arith, pow-suc 2 w)),
)
