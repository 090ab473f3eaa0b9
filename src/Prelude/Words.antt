-- ===== src/Prelude/Words.antt =====
-- Words bit by bit: `&` and when two words are the same.
use Prim.Native.Nat.{ℕ, zero, suc, ◌/◌, ◌%◌, ◌^◌, ◌<◌, bit_and}
use mathlib.Core.Path.{◌≡◌}
use mathlib.Core.Bool.{◌&&◌}
use native.Mathlib.Nat.{pow-suc}
use native.Mathlib.Omega.{arith}
use olsr.Prelude.Bits.{test_bit, bit_and_step, zero-bit_and}

pub test_bit-bit_and : (a b k : ℕ) → test_bit (bit_and a b) k ≡ (test_bit a k && test_bit b k)
unfolding test_bit
test_bit-bit_and a b zero = ground (arith, bit_and_step a b)
test_bit-bit_and a b (suc k) =
    let half : bit_and a b / 2 ≡ bit_and (a / 2) (b / 2) = omega (arith, bit_and_step a b) in
    rw half (test_bit-bit_and (a / 2) (b / 2) k)

-- `&` stays in the word.
pub bit_and-lt : (w a b : ℕ) → a < 2 ^ w → bit_and a b < 2 ^ w
bit_and-lt zero a b p =
    let a_zero : a ≡ 0 = omega arith in rw (a_zero, zero-bit_and b) (omega arith)
bit_and-lt (suc w) a b p = omega (
  arith,
  pow-suc 2 w,
  bit_and_step a b,
  bit_and-lt w (a / 2) (b / 2) (omega (arith, pow-suc 2 w)),
)

pub test_bit-ext :
    (w a b : ℕ) → a < 2 ^ w → b < 2 ^ w → ((k : ℕ) → k < w → test_bit a k ≡ test_bit b k) → a ≡ b
unfolding test_bit
test_bit-ext zero a b p q h = omega arith
test_bit-ext (suc w) a b p q h =
    let lowest : a % 2 ≡ b % 2 = ground (arith, h 0 (omega arith)) in
    let above : a / 2 ≡ b / 2 =
      test_bit-ext w (a / 2) (b / 2) (omega (arith, pow-suc 2 w)) (omega (arith, pow-suc 2 w))
        (λ k lt. h (suc k) (omega arith)) in
    omega arith
