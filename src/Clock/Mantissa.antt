-- ===== src/Clock/Mantissa.antt =====
-- The mantissa and exponent byte of a time: every byte survives, and a time loses little.
use native.Mathlib.Nat.{pow-suc, pow-le-pow_right, one-le-pow, le-div_iff_mul-le, div-lt_iff_lt-mul}
use native.Mathlib.Numerals.{towards_suc}
use olsr.Prelude.{
  ℕ, zero, suc, ◌+◌, ◌-◌, ◌*◌, ◌/◌, ◌^◌, ◌≤◌, ◌<◌, ◌≡◌, refl, subst, ◌==◌, ==_iff, arith, true, inl,
  inr, false, ltb, ltb→lt, leb, leb→le, Bool-cases,
}
use olsr.Prelude.Finite.{check_below, check_below_lem, below_eight}
use olsr.Clock.{u8, u32, encode_loop, encode_fields, encode_olsrv1, decode_olsrv1}

table : check_below 256 (λ me. encode_olsrv1 (decode_olsrv1 me) == me) ≡ true
unfolding check_below encode_olsrv1 decode_olsrv1
table = refl

-- A received byte is encoded again as the same byte.
pub encode-decode : (me : ℕ) → me < 256 → encode_olsrv1 (decode_olsrv1 me) ≡ me
encode-decode me h = (==_iff _ me).0 (check_below_lem 256 _ me table h)

encode_loop_done : (fuel t b : ℕ) → t < 62 → encode_loop fuel t b ≡ b
unfolding encode_loop
encode_loop_done zero t b h = refl
encode_loop_done (suc fuel) t b h = ground arith

-- The loop ends with the number of halvings that brings the time below 62.
pub encode_loop_range :
    (fuel t b : ℕ)
    → 62 ≤ t
    → t < 62 * 2 ^ fuel
    → b + fuel < 256
    → (m : ℕ) × (encode_loop fuel t b ≡ b + suc m) × (62 * 2 ^ m ≤ t) × (t < 62 * (2 ^ m * 2))
unfolding encode_loop
encode_loop_range zero t b low high h = absurd (omega arith)
encode_loop_range (suc fuel) t b low high h = elim (Bool-cases (leb 62 (t / 2))) [
  | inl more ↦
      let (m, e, l, u) =
        encode_loop_range fuel (t / 2) (b + 1) (leb→le _ _ more) (omega (arith, pow-suc 2 fuel))
          (omega arith) in
      (suc m, ground arith, omega (arith, pow-suc 2 m), omega (arith, pow-suc 2 m))
  | inr done ↦
      let small : t / 2 < 62 = ground arith in
      (0, ground (arith, encode_loop_done fuel (t / 2) (b + 1) small), omega arith, omega arith)
]

-- The byte of an exponent `m` and a time whose top five bits are `q`.
encode_parts :
    (t m q : ℕ)
    → m < 16
    → q ≡ t / 2 ^ (m + 2)
    → 15 ≤ q
    → q ≤ 30
    → encode_fields t (suc m) ≡ (q - 15) * 16 + m
unfolding encode_fields
encode_parts t m q h e l u =
    let a : u8 (u32 (q + 2 ^ 32 - 15)) ≡ q - 15 = omega arith in
    let small : ltb 15 m ≡ false = ground arith in
    let minus : suc m - 1 ≡ m = omega arith in rw (minus, small, ← e, a) (ground arith)

-- What is lost at exponent `m`.
abbrev Loses : ℕ → Type 0
Loses m =
    (t : ℕ)
    → 62 * 2 ^ m ≤ t
    → t < 62 * (2 ^ m * 2)
    → (125 * t < 128 * (decode_olsrv1 ((t / 2 ^ (m + 2) - 15) * 16 + m) + 1))
      × (24 * decode_olsrv1 ((t / 2 ^ (m + 2) - 15) * 16 + m) ≤ 25 * t)

Loses-below_eight : (m : ℕ) → m < 8 → Loses m
unfolding decode_olsrv1
Loses-below_eight =
    below_eight Loses (λ t l u. ground arith) (λ t l u. ground arith) (λ t l u. ground arith)
      (λ t l u. ground arith) (λ t l u. ground arith) (λ t l u. ground arith)
      (λ t l u. ground arith) (λ t l u. ground arith)

Loses-add_eight : (m : ℕ) → m < 8 → Loses (m + 8)
unfolding decode_olsrv1
Loses-add_eight =
    below_eight (λ m. Loses (m + 8)) (λ t l u. ground arith) (λ t l u. ground arith)
      (λ t l u. ground arith) (λ t l u. ground arith) (λ t l u. ground arith)
      (λ t l u. ground arith) (λ t l u. ground arith) (λ t l u. ground arith)

exponent_small : (t m : ℕ) → 62 * 2 ^ m ≤ t → t < 62 * 2 ^ 16 → m < 16
exponent_small t m l h = elim (Bool-cases (ltb m 16)) [
  | inl small ↦ ltb→lt m 16 small
  | inr large ↦
      let far : 16 ≤ m = ground arith in
      absurd (omega (arith, pow-le-pow_right {n = 2} (omega arith) far))
]

exponent_large : (t m : ℕ) → t < 62 * (2 ^ m * 2) → 62 * 2 ^ 16 ≤ t → 16 ≤ m
exponent_large t m h u = elim (Bool-cases (leb 16 m)) [
  | inl large ↦ leb→le 16 m large
  | inr small ↦
      let near : m ≤ 15 = ground arith in
      absurd (omega (arith, pow-le-pow_right {n = 2} (omega arith) near))
]

Loses_lem : (m : ℕ) → m < 16 → Loses m
Loses_lem m h = elim (Bool-cases (ltb m 8)) [
  | inl low ↦ Loses-below_eight m (ltb→lt m 8 low)
  | inr high ↦
      let e : m - 8 + 8 ≡ m = ground arith in subst Loses e (Loses-add_eight (m - 8) (omega arith))
]

top_bits :
    (t m : ℕ)
    → 62 * 2 ^ m ≤ t
    → t < 62 * (2 ^ m * 2)
    → (15 ≤ t / 2 ^ (m + 2)) × (t / 2 ^ (m + 2) ≤ 30)
top_bits t m l u =
    let p : 2 ^ (m + 2) ≡ 4 * 2 ^ m =
      simp towards_suc (omega (arith, pow-suc 2 m, pow-suc 2 (suc m))) in
    let some_bits : 0 < 2 ^ (m + 2) = omega (arith, p, one-le-pow m 2 (omega arith)) in
    let at_most : t / 2 ^ (m + 2) < 31 = (div-lt_iff_lt-mul some_bits).1 (omega (arith, p)) in
    ((le-div_iff_mul-le some_bits).1 (omega (arith, p)), omega arith)

-- A time that fits the format, from 62 ms to 62 * 2^16 ms, loses less than 3/128 of its value and
-- one millisecond on the way through the byte, and gains at most a 24th.
pub decode-encode_bounds :
    (t : ℕ)
    → 62 ≤ t
    → t < 62 * 2 ^ 16
    → (125 * t < 128 * (decode_olsrv1 (encode_olsrv1 t) + 1))
      × (24 * decode_olsrv1 (encode_olsrv1 t) ≤ 25 * t)
unfolding encode_olsrv1
decode-encode_bounds t l u =
    let (m, e, low, high) = encode_loop_range 32 t 0 l (omega arith) (omega arith) in
    let m_small = exponent_small t m low u in
    let (q_low, q_high) = top_bits t m low high in
    let e' : encode_loop 32 t 0 ≡ suc m = omega (arith, e) in
    rw (e', encode_parts t m (t / 2 ^ (m + 2)) m_small refl q_low q_high)
      (Loses_lem m m_small t low high)

encode_fields_saturates : (t m : ℕ) → 16 ≤ m → encode_fields t (suc m) ≡ 255
unfolding encode_fields
encode_fields_saturates t m h = ground arith

-- A longer time is sent as the longest one.
pub encode_saturates : (t : ℕ) → 62 * 2 ^ 16 ≤ t → t < 2 ^ 32 → encode_olsrv1 t ≡ 255
unfolding encode_olsrv1
encode_saturates t l u =
    let (m, e, low, high) = encode_loop_range 32 t 0 (omega arith) (omega arith) (omega arith) in
    let far : 16 ≤ m = exponent_large t m high l in
    let e' : encode_loop 32 t 0 ≡ suc m = omega (arith, e) in
    rw e' (encode_fields_saturates t m far)
