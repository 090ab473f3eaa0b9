-- ===== src/Packet/Fields.antt =====
-- What was written is read back, and skipping a field moves as far as reading it.
use olsr.Prelude.{
  ℕ, zero, suc, ◌+◌, ◌-◌, ◌*◌, ◌/◌, ◌%◌, ◌^◌, ◌≤◌, ◌<◌, ◌≡◌, refl, ap, Option, none, some, [], ◌∷◌,
  ◌++◌, length, arith, sym, ◌∙◌,
}
use native.Mathlib.Nat.{mod-lt}
use olsr.Prelude.Int.{ℤ, pos, negsuc}
use olsr.Clock.{encode_olsrv1, decode_olsrv1}
use olsr.Ip.{prefix_to_netmask, netmask_to_prefix}
use olsr.Ip.Netmask.{netmask_to_prefix-prefix_to_netmask, prefix_to_netmask-length}
use olsr.Packet.{
  Bytes, copy, pkt_get_u8, pkt_get_u16, pkt_get_u32, signed, unsigned_word, pkt_get_s8, pkt_get_s16,
  pkt_get_s32, pkt_get_reltime, pkt_get_ipaddress, pkt_get_prefixlen, pkt_ignore, pkt_put_u8,
  pkt_put_u16, pkt_put_u32, pkt_put_s8, pkt_put_s16, pkt_put_s32, pkt_put_reltime,
  pkt_put_ipaddress, pkt_put_prefixlen,
}

copy-append : (xs rest : Bytes) → copy (length xs) (xs ++ rest) ≡ some (xs, rest)
unfolding copy
copy-append [] rest = refl
copy-append (x ∷ xs) rest = rw (copy-append xs rest) refl

-- Bytes that are there can be copied.
pub copy_lem :
    (n : ℕ) (p : Bytes)
    → n ≤ length p
    → (a : Bytes) × (b : Bytes) × (copy n p ≡ some (a, b)) × (length b + n ≡ length p)
unfolding copy
copy_lem zero p h = ([], p, refl, omega arith)
copy_lem (suc n) [] h = absurd (omega arith)
copy_lem (suc n) (x ∷ p) h =
    let (a, b, run, rest) = copy_lem n p (omega arith) in
    (x ∷ a, b, rw run refl, omega (arith, rest))

pkt_ignore-append : (xs rest : Bytes) → pkt_ignore (length xs) (xs ++ rest) ≡ some rest
unfolding pkt_ignore
pkt_ignore-append [] rest = refl
pkt_ignore-append (x ∷ xs) rest = pkt_ignore-append xs rest

-- A signed number that fits `w` bits.
abbrev pub Fits : ℕ → ℤ → Type 0
Fits w (pos n) = n < 2 ^ (w - 1)
Fits w (negsuc n) = n < 2 ^ (w - 1)

signed-unsigned_word_8 : (z : ℤ) → Fits 8 z → signed 8 (unsigned_word 8 z) ≡ z
unfolding signed unsigned_word
signed-unsigned_word_8 (pos n) h = let e : n % 2 ^ 8 ≡ n = omega arith in ground (arith, e)
signed-unsigned_word_8 (negsuc n) h =
    let e : 2 ^ 8 - 1 - (2 ^ 8 - 1 - n % 2 ^ 8) ≡ n = omega arith in ground (arith, e)

signed-unsigned_word_16 : (z : ℤ) → Fits 16 z → signed 16 (unsigned_word 16 z) ≡ z
unfolding signed unsigned_word
signed-unsigned_word_16 (pos n) h = let e : n % 2 ^ 16 ≡ n = omega arith in ground (arith, e)
signed-unsigned_word_16 (negsuc n) h =
    let e : 2 ^ 16 - 1 - (2 ^ 16 - 1 - n % 2 ^ 16) ≡ n = omega arith in ground (arith, e)

signed-unsigned_word_32 : (z : ℤ) → Fits 32 z → signed 32 (unsigned_word 32 z) ≡ z
unfolding signed unsigned_word
signed-unsigned_word_32 (pos n) h = let e : n % 2 ^ 32 ≡ n = omega arith in ground (arith, e)
signed-unsigned_word_32 (negsuc n) h =
    let e : 2 ^ 32 - 1 - (2 ^ 32 - 1 - n % 2 ^ 32) ≡ n = omega arith in ground (arith, e)

unsigned_word-lt : (w : ℕ) (z : ℤ) → 0 < 2 ^ w → unsigned_word w z < 2 ^ w
unfolding unsigned_word
unsigned_word-lt w (pos n) h = mod-lt n {m = 2 ^ w} h
unsigned_word-lt w (negsuc n) h = omega arith

get_u8 : (n : ℕ) (rest : Bytes) → n < 2 ^ 8 → pkt_get_u8 (pkt_put_u8 n ++ rest) ≡ some (n, rest)
unfolding pkt_get_u8 pkt_put_u8
get_u8 n rest h = refl

get_u16 : (n : ℕ) (rest : Bytes) → n < 2 ^ 16 → pkt_get_u16 (pkt_put_u16 n ++ rest) ≡ some (n, rest)
unfolding pkt_get_u16 pkt_put_u16
get_u16 n rest h = let e : n / 256 % 256 * 256 + n % 256 ≡ n = omega arith in rw e refl

get_u32 : (n : ℕ) (rest : Bytes) → n < 2 ^ 32 → pkt_get_u32 (pkt_put_u32 n ++ rest) ≡ some (n, rest)
unfolding pkt_get_u32 pkt_put_u32
get_u32 n rest h =
    let e : ((n / 2 ^ 24 % 256 * 256 + n / 2 ^ 16 % 256) * 256 + n / 256 % 256) * 256 + n % 256
        ≡ n =
      omega arith in
    rw e refl

get_s8 : (z : ℤ) (rest : Bytes) → Fits 8 z → pkt_get_s8 (pkt_put_s8 z ++ rest) ≡ some (z, rest)
unfolding pkt_get_s8 pkt_put_s8
get_s8 z rest h =
    rw
      (
        get_u8 (unsigned_word 8 z) rest (unsigned_word-lt 8 z (omega arith)),
        signed-unsigned_word_8 z h,
      )
      refl

get_s16 : (z : ℤ) (rest : Bytes) → Fits 16 z → pkt_get_s16 (pkt_put_s16 z ++ rest) ≡ some (z, rest)
unfolding pkt_get_s16 pkt_put_s16
get_s16 z rest h =
    rw
      (
        get_u16 (unsigned_word 16 z) rest (unsigned_word-lt 16 z (omega arith)),
        signed-unsigned_word_16 z h,
      )
      refl

get_s32 : (z : ℤ) (rest : Bytes) → Fits 32 z → pkt_get_s32 (pkt_put_s32 z ++ rest) ≡ some (z, rest)
unfolding pkt_get_s32 pkt_put_s32
get_s32 z rest h =
    rw
      (
        get_u32 (unsigned_word 32 z) rest (unsigned_word-lt 32 z (omega arith)),
        signed-unsigned_word_32 z h,
      )
      refl

get_prefixlen :
    (ipsize len : ℕ) (rest : Bytes)
    → ipsize < 32
    → len ≤ ipsize * 8
    → pkt_get_prefixlen ipsize (pkt_put_prefixlen ipsize len ++ rest) ≡ some (len, rest)
unfolding pkt_get_prefixlen pkt_put_prefixlen
get_prefixlen ipsize len rest small fits =
    let copied : copy ipsize ((prefix_to_netmask ipsize len).0 ++ rest)
        ≡ some ((prefix_to_netmask ipsize len).0, rest) =
      ap (λ n. copy n ((prefix_to_netmask ipsize len).0 ++ rest))
        (sym (prefix_to_netmask-length ipsize len))
      ∙ copy-append (prefix_to_netmask ipsize len).0 rest in
    ap
      (λ r. elim r as (λ r. Option (ℕ × Bytes)) [
        | none ↦ none
        | some r ↦ some (netmask_to_prefix r.0, r.1)
      ])
      copied
    ∙ ap (λ n. some (n, rest)) (netmask_to_prefix-prefix_to_netmask ipsize len small fits).1

-- Each reader gives back what its writer wrote, whatever follows it, if the value fits the field: an
-- unsigned or a signed number of 8, 16 or 32 bits, an address of `ipsize` bytes, and a prefix length
-- of no more bits than those of an address of fewer than 32 bytes. A time comes back as the time
-- that its mantissa and exponent byte stands for.
pub pkt_get-pkt_put :
    (ipsize a b c time len : ℕ) (x y z : ℤ) (addr rest : Bytes)
    → a < 2 ^ 8
    → b < 2 ^ 16
    → c < 2 ^ 32
    → Fits 8 x
    → Fits 16 y
    → Fits 32 z
    → ipsize < 32
    → length addr ≡ ipsize
    → len ≤ ipsize * 8
    → (pkt_get_u8 (pkt_put_u8 a ++ rest) ≡ some (a, rest))
      × (pkt_get_u16 (pkt_put_u16 b ++ rest) ≡ some (b, rest))
      × (pkt_get_u32 (pkt_put_u32 c ++ rest) ≡ some (c, rest))
      × (pkt_get_s8 (pkt_put_s8 x ++ rest) ≡ some (x, rest))
      × (pkt_get_s16 (pkt_put_s16 y ++ rest) ≡ some (y, rest))
      × (pkt_get_s32 (pkt_put_s32 z ++ rest) ≡ some (z, rest))
      × (pkt_get_reltime (pkt_put_reltime time ++ rest)
          ≡ some (decode_olsrv1 (encode_olsrv1 time), rest))
      × (pkt_get_ipaddress ipsize (pkt_put_ipaddress addr ++ rest) ≡ some (addr, rest))
      × (pkt_get_prefixlen ipsize (pkt_put_prefixlen ipsize len ++ rest) ≡ some (len, rest))
unfolding pkt_get_reltime pkt_put_reltime pkt_get_ipaddress pkt_put_ipaddress
pkt_get-pkt_put ipsize a b c time len x y z addr rest ha hb hc hx hy hz small size fits = (
  get_u8 a rest ha,
  get_u16 b rest hb,
  get_u32 c rest hc,
  get_s8 x rest hx,
  get_s16 y rest hy,
  get_s32 z rest hz,
  refl,
  ap (λ n. copy n (addr ++ rest)) (sym size) ∙ copy-append addr rest,
  get_prefixlen ipsize len rest small fits,
)

-- Skipping a field moves the pointer behind what the writer of that field wrote.
pub pkt_ignore-pkt_put :
    (ipsize a b c time len : ℕ) (x y z : ℤ) (addr rest : Bytes)
    → length addr ≡ ipsize
    → (pkt_ignore 1 (pkt_put_u8 a ++ rest) ≡ some rest)
      × (pkt_ignore 2 (pkt_put_u16 b ++ rest) ≡ some rest)
      × (pkt_ignore 4 (pkt_put_u32 c ++ rest) ≡ some rest)
      × (pkt_ignore 1 (pkt_put_s8 x ++ rest) ≡ some rest)
      × (pkt_ignore 2 (pkt_put_s16 y ++ rest) ≡ some rest)
      × (pkt_ignore 4 (pkt_put_s32 z ++ rest) ≡ some rest)
      × (pkt_ignore 1 (pkt_put_reltime time ++ rest) ≡ some rest)
      × (pkt_ignore ipsize (pkt_put_ipaddress addr ++ rest) ≡ some rest)
      × (pkt_ignore ipsize (pkt_put_prefixlen ipsize len ++ rest) ≡ some rest)
unfolding pkt_ignore pkt_put_u8 pkt_put_u16 pkt_put_u32 pkt_put_s8 pkt_put_s16 pkt_put_s32
    pkt_put_reltime pkt_put_ipaddress pkt_put_prefixlen
pkt_ignore-pkt_put ipsize a b c time len x y z addr rest size = (
  refl,
  refl,
  refl,
  refl,
  refl,
  refl,
  refl,
  ap (λ n. pkt_ignore n (addr ++ rest)) (sym size) ∙ pkt_ignore-append addr rest,
  ap (λ n. pkt_ignore n ((prefix_to_netmask ipsize len).0 ++ rest))
        (sym (prefix_to_netmask-length ipsize len))
      ∙ pkt_ignore-append (prefix_to_netmask ipsize len).0 rest,
)
