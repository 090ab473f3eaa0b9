-- ===== src/Packet.antt =====
-- lq_packet.h: the readers and writers of the fields of a message, in network byte order. A reader
-- takes the bytes from its pointer on and gives what it reads and the bytes behind it; `none` is a
-- read behind the end of the buffer. A writer gives the bytes that it writes at its pointer. An
-- address is the `ipsize` bytes of its memory.
pub mod Fields
mod Tests
use olsr.Prelude.{
  ℕ, zero, suc, ◌+◌, ◌-◌, ◌*◌, ◌/◌, ◌%◌, ◌^◌, ltb, if◌then◌else◌, Option, none, some, List, [], ◌∷◌,
  length,
}
use olsr.Prelude.Int.{ℤ, pos, negsuc}
use olsr.Clock.{u8, encode_olsrv1, decode_olsrv1}
use olsr.Ip.{prefix_to_netmask, netmask_to_prefix}

abbrev pub Bytes : Type 0
Bytes = List ℕ

-- `memcpy` of so many bytes from the pointer, which then stands behind them.
unfoldable pub copy : ℕ → Bytes → Option (Bytes × Bytes)
copy zero p = some ([], p)
copy (suc n) [] = none
copy (suc n) (b ∷ p) = elim (copy n p) [ none ↦ none | some r ↦ some (b ∷ r.0, r.1) ]

unfoldable pub pkt_get_u8 : Bytes → Option (ℕ × Bytes)
pkt_get_u8 [] = none
pkt_get_u8 (a ∷ p) = some (a, p)

unfoldable pub pkt_get_u16 : Bytes → Option (ℕ × Bytes)
pkt_get_u16 (a ∷ b ∷ p) = some (a * 256 + b, p)
pkt_get_u16 _ = none

unfoldable pub pkt_get_u32 : Bytes → Option (ℕ × Bytes)
pkt_get_u32 (a ∷ b ∷ c ∷ d ∷ p) = some (((a * 256 + b) * 256 + c) * 256 + d, p)
pkt_get_u32 _ = none

-- A word of `w` bits as a signed number, and back.
unfoldable pub signed : ℕ → ℕ → ℤ
signed w n = if ltb n (2 ^ (w - 1)) then pos n else negsuc (2 ^ w - 1 - n)

unfoldable pub unsigned_word : ℕ → ℤ → ℕ
unsigned_word w (pos n) = n % 2 ^ w
unsigned_word w (negsuc n) = 2 ^ w - 1 - n % 2 ^ w

abbrev as_signed : ℕ → Option (ℕ × Bytes) → Option (ℤ × Bytes)
as_signed w none = none
as_signed w (some r) = some (signed w r.0, r.1)

unfoldable pub pkt_get_s8 : Bytes → Option (ℤ × Bytes)
pkt_get_s8 p = as_signed 8 (pkt_get_u8 p)

unfoldable pub pkt_get_s16 : Bytes → Option (ℤ × Bytes)
pkt_get_s16 p = as_signed 16 (pkt_get_u16 p)

unfoldable pub pkt_get_s32 : Bytes → Option (ℤ × Bytes)
pkt_get_s32 p = as_signed 32 (pkt_get_u32 p)

unfoldable pub pkt_get_reltime : Bytes → Option (ℕ × Bytes)
pkt_get_reltime [] = none
pkt_get_reltime (a ∷ p) = some (decode_olsrv1 a, p)

unfoldable pub pkt_get_ipaddress : ℕ → Bytes → Option (Bytes × Bytes)
pkt_get_ipaddress ipsize p = copy ipsize p

unfoldable pub pkt_get_prefixlen : ℕ → Bytes → Option (ℕ × Bytes)
pkt_get_prefixlen ipsize p = elim (copy ipsize p) [
  | none ↦ none
  | some r ↦ some (netmask_to_prefix r.0, r.1)
]

-- `pkt_ignore_u8` and the others: the pointer moves on by so many bytes.
unfoldable pub pkt_ignore : ℕ → Bytes → Option Bytes
pkt_ignore zero p = some p
pkt_ignore (suc n) [] = none
pkt_ignore (suc n) (b ∷ p) = pkt_ignore n p

unfoldable pub pkt_put_u8 : ℕ → Bytes
pkt_put_u8 var = var ∷ []

unfoldable pub pkt_put_u16 : ℕ → Bytes
pkt_put_u16 var = var / 256 % 256 ∷ var % 256 ∷ []

unfoldable pub pkt_put_u32 : ℕ → Bytes
pkt_put_u32 var = var / 2 ^ 24 % 256 ∷ var / 2 ^ 16 % 256 ∷ var / 256 % 256 ∷ var % 256 ∷ []

unfoldable pub pkt_put_s8 : ℤ → Bytes
pkt_put_s8 var = pkt_put_u8 (unsigned_word 8 var)

unfoldable pub pkt_put_s16 : ℤ → Bytes
pkt_put_s16 var = pkt_put_u16 (unsigned_word 16 var)

unfoldable pub pkt_put_s32 : ℤ → Bytes
pkt_put_s32 var = pkt_put_u32 (unsigned_word 32 var)

unfoldable pub pkt_put_reltime : ℕ → Bytes
pkt_put_reltime var = encode_olsrv1 var ∷ []

-- The bytes of the address, of which there are `ipsize`.
unfoldable pub pkt_put_ipaddress : Bytes → Bytes
pkt_put_ipaddress var = var

unfoldable pub pkt_put_prefixlen : ℕ → ℕ → Bytes
pkt_put_prefixlen ipsize var = (prefix_to_netmask ipsize var).0
