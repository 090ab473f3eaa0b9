-- ===== src/TcSet/Between.antt =====
-- Two parts of a TC message of src/tc_set.c meet at one border: the receiver makes the same address of
-- the flag from either side.
use olsr.Prelude.{
  ℕ, zero, suc, ◌+◌, ◌-◌, ◌*◌, ◌/◌, ◌%◌, ◌^◌, ◌≤◌, ◌<◌, ◌≡◌, ◌⊎◌, inl, inr, refl, sym, subst, ap,
  false, ◌==◌, if_cases, [], ◌∷◌, ◌++◌, length, length-replicate, take, drop, replicate, All, some,
  arith, Bool-cases, ltb,
}
use native.Mathlib.Nat.{pow-suc, suc-mul, mul-le-mul_right}
use olsr.Packet.{Bytes}
use olsr.TcSet.Message.{address}
use olsr.TcSet.Border.{border_byte, set_border, calculate_border, first_bit, calculate_border_flag}
use olsr.TcSet.Byte.{first_bit-Splits, eq_of}

le_of_lt : (a b : ℕ) → a < b → suc a ≤ b
le_of_lt a b h = omega arith

-- A leading byte, with the rest of the address below it.
address-head : (a b m n : ℕ) → a < b → m < 256 ^ n → a * 256 ^ n + m < b * 256 ^ n
address-head a b m n less low =
    omega (arith, mul-le-mul_right (256 ^ n) (le_of_lt a b less), suc-mul a (256 ^ n))

address-lt : (bs : Bytes) → All (λ b. b < 256) bs → address bs < 256 ^ length bs
unfolding address
address-lt [] a = omega arith
address-lt (b ∷ bs) a = omega (
  arith,
  address-head b 256 (address bs) (length bs) a.0 (address-lt bs a.1),
  pow-suc 256 (length bs),
)

address-zeros : (n : ℕ) → address (replicate n 0) ≡ 0
unfolding address
address-zeros zero = refl
address-zeros (suc n) = omega (arith, address-zeros n)

Bytes-cases : (bs : Bytes) → (bs ≡ []) ⊎ ((b : ℕ) × (low : Bytes) × (bs ≡ b ∷ low))
Bytes-cases [] = inl refl
Bytes-cases (b ∷ bs) = inr (b, bs, refl)

-- A byte before the bit is kept.
set_border-cons :
    (keep bit x : ℕ) (ip b : Bytes)
    → set_border keep bit ip ≡ some b
    → set_border (suc keep) bit (x ∷ ip) ≡ some (x ∷ b)
unfolding set_border
set_border-cons keep bit x ip b run = elim (Bytes-cases (drop keep ip)) [
  | inl ends ↦ absurd (ground (arith, run, ends))
  | inr (byte, low, rest) ↦
      let made : take keep ip ++ border_byte bit byte ∷ replicate (length low) 0 ≡ b =
        ground (arith, run, rest) in
      rw (rest, set_border) (ap (λ r. some (x ∷ r)) made)
]

calculate_border-cons :
    (border x : ℕ) (ip b : Bytes)
    → (border + 255) % 256 / 8 < length ip
    → calculate_border border ip ≡ some b
    → calculate_border border (x ∷ ip) ≡ some (x ∷ b)
unfolding calculate_border
calculate_border-cons border x ip b inside run =
    let pos = (border + 255) % 256 in
    let keep : suc (length ip) - pos / 8 - 1 ≡ suc (length ip - pos / 8 - 1) = omega arith in
    let made : set_border (length ip - pos / 8 - 1) (pos % 8) ip ≡ some b =
      ground (arith, run, inside) in
    ground (arith, inside, keep, set_border-cons (length ip - pos / 8 - 1) (pos % 8) x ip b made)

-- The byte that has the bit.
calculate_border-head :
    (bit x : ℕ) (ip : Bytes)
    → bit < 8
    → length ip < 16
    → ((bit + 8 * length ip + 1) % 256 + 255) % 256 / 8 ≡ length ip
    → ((bit + 8 * length ip + 1) % 256 + 255) % 256 % 8 ≡ bit
    → calculate_border ((bit + 8 * length ip + 1) % 256) (x ∷ ip)
      ≡ some (border_byte bit x ∷ replicate (length ip) 0)
unfolding calculate_border set_border
calculate_border-head bit x ip low short high rem =
    let keep : suc (length ip) - length ip - 1 ≡ 0 = omega arith in
    rw (high, rem, keep) (ground arith)

flag_position :
    (bit n : ℕ)
    → bit < 8
    → n < 16
    → (((bit + 8 * n + 1) % 256 + 255) % 256 / 8 ≡ n)
      × (((bit + 8 * n + 1) % 256 + 255) % 256 % 8 ≡ bit)
flag_position bit n low short = (omega arith, omega arith)

-- What the receiver makes of the flag, from the address on either side.
abbrev pub Between : ℕ → Bytes → Bytes → Type 0
Between flag lower higher =
    (b : Bytes) × (calculate_border flag lower ≡ some b)
    × (calculate_border flag higher ≡ some b)
    × (address lower < address b)
    × (address b ≤ address higher)
    × ((flag + 255) % 256 / 8 < length lower)
    × (length b ≡ length lower)

-- The address of a byte over cleared ones.
address-byte : (b m : ℕ) → address (b ∷ replicate m 0) ≡ b * 256 ^ m
unfolding address
address-byte b m = rw (length-replicate m zero, address-zeros m) (omega arith)

border_here :
    (l h : ℕ) (lower higher : Bytes)
    → l < h
    → h < 256
    → All (λ b. b < 256) lower
    → length lower ≡ length higher
    → length lower < 16
    → Between ((first_bit 8 0 l h + 8 * length lower + 1) % 256) (l ∷ lower) (h ∷ higher)
unfolding address
border_here l h lower higher less byte bytes same short =
    let bit = first_bit 8 0 l h in
    let m = length lower in
    let (low, one, above, below) = first_bit-Splits l h less byte in
    let (high, rem) = flag_position bit m low short in
    let (high', rem') = flag_position bit (length higher) low (omega arith) in
    let b = border_byte bit l in
    let value = address-byte b m in
    let over : b * 256 ^ m ≤ h * 256 ^ m = mul-le-mul_right (256 ^ m) (omega arith) in
    (
      b ∷ replicate m 0,
      calculate_border-head bit l lower low short high rem,
      rw (same, one) (calculate_border-head bit h higher low (omega arith) high' rem'),
      rw value (address-head l b (address lower) m above (address-lt lower bytes)),
      rw (value, sym same) (omega arith),
      omega arith,
      ap suc (length-replicate m zero),
    )

-- A byte that both addresses have in front.
border_later :
    (flag l : ℕ) (lower higher : Bytes)
    → length lower ≡ length higher
    → Between flag lower higher
    → Between flag (l ∷ lower) (l ∷ higher)
unfolding address
border_later flag l lower higher same (b, run, run', above, below, inside, len) = (
  l ∷ b,
  calculate_border-cons flag l lower b inside run,
  calculate_border-cons flag l higher b (subst (λ n. (flag + 255) % 256 / 8 < n) same inside) run',
  rw len (omega (arith, above)),
  rw (len, sym same) (omega (arith, below)),
  omega (arith, inside),
  ap suc len,
)

-- The first byte that differs is less in the lower address.
address-order :
    (l h : ℕ) (lower higher : Bytes)
    → All (λ b. b < 256) higher
    → length lower ≡ length higher
    → address (l ∷ lower) < address (h ∷ higher)
    → (l == h) ≡ false
    → l < h
unfolding address
address-order l h lower higher bytes same less differ = elim (Bool-cases (ltb l h)) [
  | inl up ↦ ground (arith, up)
  | inr down ↦
      let high = address-lt higher bytes in
      let more : h < l = ground (arith, down, differ) in
      let over : h * 256 ^ length higher + address higher < l * 256 ^ length higher =
        address-head h l (address higher) (length higher) more high in
      let low =
        subst (λ n. l * 256 ^ n + address lower < h * 256 ^ length higher + address higher) same
          less in
      absurd (omega arith)
]

address-tail :
    (l h : ℕ) (lower higher : Bytes)
    → length lower ≡ length higher
    → l ≡ h
    → address (l ∷ lower) < address (h ∷ higher)
    → address lower < address higher
unfolding address
address-tail l h lower higher same equal less =
    let one =
      subst (λ n. l * 256 ^ n + address lower < h * 256 ^ length higher + address higher) same
        less in
    let two =
      subst
        (λ x. x * 256 ^ length higher + address lower < h * 256 ^ length higher + address higher)
        equal one in
    omega arith

-- The border flag of two addresses of the same length, of at most 16 bytes, the lower one first: the
-- receiver makes the same border of it from either address, and the border is above the lower
-- address and not above the higher one.
pub calculate_border_flag-Between :
    (lower higher : Bytes)
    → All (λ b. b < 256) lower
    → All (λ b. b < 256) higher
    → length lower ≡ length higher
    → length lower ≤ 16
    → address lower < address higher
    → Between (calculate_border_flag lower higher) lower higher
unfolding calculate_border_flag address
calculate_border_flag-Between [] [] bl bh same short less = absurd (omega arith)
calculate_border_flag-Between [] (h ∷ higher) bl bh same short less = absurd (omega arith)
calculate_border_flag-Between (l ∷ lower) [] bl bh same short less = absurd (omega arith)
calculate_border_flag-Between (l ∷ lower) (h ∷ higher) bl bh same short less =
    let m : length lower ≡ length higher = omega arith in
    if_cases (λ flag. Between flag (l ∷ lower) (h ∷ higher)) (l == h)
      (calculate_border_flag lower higher) ((first_bit 8 0 l h + 8 * length lower + 1) % 256)
      (λ equal.
        let at = eq_of l h equal in
        let rest =
          calculate_border_flag-Between lower higher bl.1 bh.1 m (omega arith)
            (address-tail l h lower higher m at less) in
        subst (λ x. Between (calculate_border_flag lower higher) (l ∷ lower) (x ∷ higher)) at
          (border_later (calculate_border_flag lower higher) l lower higher m rest))
      (λ differ.
        border_here l h lower higher (address-order l h lower higher bh.1 m less differ) bh.0 bl.1 m
          (omega arith))
