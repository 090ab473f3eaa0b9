-- ===== src/TcSet/Border.antt =====
-- The borders of a TC message in src/tc_set.c, which is a part of all edges of a vertex: what the
-- sender writes and what the receiver makes of it.
use olsr.Prelude.{
  ℕ, zero, suc, ◌+◌, ◌-◌, ◌*◌, ◌/◌, ◌%◌, ◌^◌, ◌&&◌, ◌==◌, leb, if◌then◌else◌, [], ◌∷◌, ◌++◌, length,
  take, drop, replicate, Option, none, some,
}
use olsr.Packet.{Bytes}

-- One border of `olsr_calculate_tc_border`: the address with the bit of the border set and the bits
-- below it cleared. `none` is a write outside of the address, which nothing in the code prevents:
-- the border is taken from the message, and 0 wraps around to 255.
unfoldable pub border_byte : ℕ → ℕ → ℕ
border_byte bit byte = byte / 2 ^ suc bit * 2 ^ suc bit + 2 ^ bit

-- The byte behind so many others gets the bit, and the bytes behind it are cleared.
unfoldable pub set_border : ℕ → ℕ → Bytes → Option Bytes
set_border keep bit ip = elim (drop keep ip) [
  | [] ↦ none
  | byte ∷ low ↦ some (take keep ip ++ border_byte bit byte ∷ replicate (length low) 0)
]

unfoldable pub calculate_border : ℕ → Bytes → Option Bytes
calculate_border border ip =
    let pos = (border + 255) % 256 in
    if leb (length ip) (pos / 8) then none else set_border (length ip - pos / 8 - 1) (pos % 8) ip

-- `olsr_calculate_tc_border`; the inner none is its return value 0.
unfoldable pub calculate_tc_border : ℕ → Bytes → ℕ → Bytes → Option (Option (Bytes × Bytes))
calculate_tc_border lower_border lower_ip upper_border upper_ip =
    if lower_border == 0 && upper_border == 0
    then some none
    else (elim (if lower_border == 0xff
        then some (replicate (length lower_ip) 0)
        else calculate_border lower_border lower_ip) [
          | none ↦ none
          | some lower ↦
              elim (if upper_border == 0xff
                then some (replicate (length upper_ip) 0xff)
                else calculate_border upper_border upper_ip) [
                  | none ↦ none
                  | some upper ↦ some (some (lower, upper))
                ]
        ])

-- The first loop of `calculate_border_flag` inside a byte, which ends at the highest bit that differs.
unfoldable pub first_bit : ℕ → ℕ → ℕ → ℕ → ℕ
first_bit zero bitpos lower higher = bitpos
first_bit (suc n) bitpos lower higher =
    let rest = first_bit n (suc bitpos) lower higher in
    if lower / 2 ^ suc bitpos == higher / 2 ^ suc bitpos then bitpos else rest

-- `calculate_border_flag` of two addresses, byte by byte.
unfoldable pub calculate_border_flag : Bytes → Bytes → ℕ
calculate_border_flag [] higher = 0
calculate_border_flag (l ∷ lower) [] = 0
calculate_border_flag (l ∷ lower) (h ∷ higher) =
    let rest = calculate_border_flag lower higher in
    if l == h then rest else (first_bit 8 0 l h + 8 * length lower + 1) % 256
