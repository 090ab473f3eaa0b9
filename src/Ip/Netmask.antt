-- ===== src/Ip/Netmask.antt =====
-- `netmask_to_prefix` is the inverse of `prefix_to_netmask`, and the netmask has its leading bits set.
use olsr.Prelude.{
  ℕ, zero, suc, ◌+◌, ◌-◌, ◌*◌, ◌/◌, ◌%◌, ◌^◌, ◌≤◌, ◌<◌, ◌≡◌, refl, ap, min, ltb, ◌==◌, true, false,
  some, List, [], ◌∷◌, ◌++◌, length, length-append, length-replicate, replicate, arith, Bool-cases,
  inl, inr, ◌∙◌,
}
use olsr.Prelude.Finite.{below_eight}
use olsr.Clock.{u8}
use olsr.Ip.{prefix_to_netmask, netmask_to_prefix, netmask_loop, last_byte}

netmask_loop_ones :
    (len x e : ℕ) (rest : List ℕ)
    → x + 8 * e < 2 ^ 16
    → netmask_loop len x (replicate e 0xff ++ rest) ≡ netmask_loop len (x + 8 * e) rest
unfolding netmask_loop
netmask_loop_ones len x zero rest h = let same : x + 8 * 0 ≡ x = omega arith in rw same refl
netmask_loop_ones len x (suc e) rest h =
    let next : (x + 8) % 2 ^ 16 ≡ x + 8 = omega arith in
    let sum : x + 8 + 8 * e ≡ x + 8 * suc e = omega arith in
    rw (next, netmask_loop_ones len (x + 8) e rest (omega arith), sum) refl

-- The byte of the mask that is neither all ones nor behind them.
last_byte_lem :
    (r : ℕ)
    → r < 8
    → (last_byte (u8 (0xff * 2 ^ (8 - r))) ≡ some r) × ((u8 (0xff * 2 ^ (8 - r)) == 0xff) ≡ false)
unfolding last_byte
last_byte_lem r h =
    below_eight
      (λ r.
        (last_byte (u8 (0xff * 2 ^ (8 - r))) ≡ some r)
        × ((u8 (0xff * 2 ^ (8 - r)) == 0xff) ≡ false))
      (refl, refl) (refl, refl) (refl, refl) (refl, refl) (refl, refl) (refl, refl) (refl, refl)
      (refl, refl) r h

byte_of : ℕ → ℕ
byte_of p = u8 (0xff * 2 ^ (8 - p % 8))

mask_partial :
    (len p : ℕ)
    → p / 8 < len
    → (prefix_to_netmask len p).0
      ≡ replicate (p / 8) 0xff ++ byte_of p ∷ replicate (len - (p / 8 + 1)) 0
unfolding prefix_to_netmask byte_of
mask_partial len p h =
    let end : min len (p / 8) ≡ p / 8 = omega arith in
    let more : ltb (p / 8) len ≡ true = ground arith in rw (end, more) refl

mask_full : (len p : ℕ) → len ≤ p / 8 → (prefix_to_netmask len p).0 ≡ replicate len 0xff ++ []
unfolding prefix_to_netmask
mask_full len p h =
    let end : min len (p / 8) ≡ len = omega arith in
    let full : ltb len len ≡ false = ground arith in rw (end, full) refl

read_partial :
    (len p : ℕ) → len < 32 → p / 8 < len → netmask_to_prefix (prefix_to_netmask len p).0 ≡ p
unfolding netmask_to_prefix netmask_loop byte_of
read_partial len p small more =
    let (exact, odd) = last_byte_lem (p % 8) (omega arith) in
    let sum : (0 + 8 * (p / 8) + p % 8) % 2 ^ 16 % 2 ^ 8 ≡ p = omega arith in
    rw (mask_partial len p more)
      (ap u8 (netmask_loop_ones _ 0 (p / 8) _ (omega arith)) ∙ rw (odd, exact) sum)

read_full : (len p : ℕ) → len < 32 → p ≡ len * 8 → netmask_to_prefix (prefix_to_netmask len p).0 ≡ p
unfolding netmask_to_prefix netmask_loop
read_full len p small all =
    let sum : (0 + 8 * len) % 2 ^ 8 ≡ p = omega arith in
    rw (mask_full len p (omega arith)) (ap u8 (netmask_loop_ones _ 0 len _ (omega arith)) ∙ sum)

-- For a buffer of fewer than 32 bytes, a prefix length that is no longer than the buffer is accepted,
-- and is what `netmask_to_prefix` reads from the mask that was written.
pub netmask_to_prefix-prefix_to_netmask :
    (len p : ℕ)
    → len < 32
    → p ≤ len * 8
    → ((prefix_to_netmask len p).1 ≡ true) × (netmask_to_prefix (prefix_to_netmask len p).0 ≡ p)
unfolding prefix_to_netmask
netmask_to_prefix-prefix_to_netmask len p small fits = (
  ground arith,
  elim (Bool-cases (ltb (p / 8) len)) [
    | inl more ↦ read_partial len p small (ground arith)
    | inr full ↦ read_full len p small (ground arith)
  ],
)

pub prefix_to_netmask-length : (len p : ℕ) → length (prefix_to_netmask len p).0 ≡ len
prefix_to_netmask-length len p = elim (Bool-cases (ltb (p / 8) len)) [
  | inl more ↦ rw (mask_partial len p (ground arith)) (
      omega (
        arith,
        length-append (replicate (p / 8) 0xff) (byte_of p ∷ replicate (len - (p / 8 + 1)) 0),
        length-replicate {A = ℕ} (p / 8) 0xff,
        length-replicate {A = ℕ} (len - (p / 8 + 1)) 0,
        more_lem (p / 8) len more,
      ))
  | inr full ↦ rw (mask_full len p (ground arith)) (
      omega
        (arith, length-append {A = ℕ} (replicate len 0xff) [], length-replicate {A = ℕ} len 0xff))
]
  where
    more_lem : (a b : ℕ) → ltb a b ≡ true → a < b
    more_lem a b h = ground arith
