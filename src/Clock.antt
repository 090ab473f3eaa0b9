-- ===== src/Clock.antt =====
-- olsr_clock.c: the internal millisecond clock `now_times`, a `uint32_t` that wraps around, and the
-- one-byte mantissa and exponent form of a time in a message (RFC 3626).
pub mod Wrap
pub mod Mantissa
mod Tests
use olsr.Prelude.{ℕ, zero, suc, ◌+◌, ◌-◌, ◌*◌, ◌/◌, ◌%◌, ◌^◌, ltb, leb, if◌then◌else◌, Bool}
use olsr.Prelude.Int.{ℤ, pos, sub_ℕ}

abbrev pub u32 : ℕ → ℕ
u32 n = n % 2 ^ 32

abbrev pub u8 : ℕ → ℕ
u8 n = n % 2 ^ 8

-- `olsr_clock_isPast`. The state is `now_times`.
unfoldable pub is_past : ℕ → ℕ → Bool
is_past now_times absolute =
    if ltb now_times absolute
    then ltb (2 ^ 31) (absolute - now_times)
    else leb (now_times - absolute) (2 ^ 31)

-- `(int32_t)` of a `uint32_t`.
abbrev pub int32 : ℕ → ℤ
int32 w = if ltb w (2 ^ 31) then pos w else sub_ℕ w (2 ^ 32)

-- `-` on `int32_t`; -(-2^31) wraps to itself.
abbrev pub negate_int32 : ℕ → ℤ
negate_int32 w = int32 (u32 (2 ^ 32 - w))

-- `olsr_clock_getRelative`.
unfoldable pub get_relative : ℕ → ℕ → ℤ
get_relative now_times absolute =
    if ltb now_times absolute
    then (let diff = absolute - now_times in
        if ltb (2 ^ 31) diff then negate_int32 (0xffff_ffff - diff) else int32 diff)
    else (let diff = now_times - absolute in
        if ltb (2 ^ 31) diff then int32 (0xffff_ffff - diff) else negate_int32 diff)

-- `olsr_clock_getAbsolute` of olsr_clock.h.
unfoldable pub get_absolute : ℕ → ℕ → ℕ
get_absolute now_times relative = u32 (now_times + relative)

-- The loop of `olsr_clock_encode_olsrv1`: it halves the interval until it is below 62 and counts the
-- rounds in a `uint8_t`. A 32-bit interval takes 27 rounds at most, so 32 rounds of fuel are enough.
unfoldable pub encode_loop : ℕ → ℕ → ℕ → ℕ
encode_loop zero unscaled b = b
encode_loop (suc fuel) unscaled b =
    let rest = encode_loop fuel (unscaled / 2) (u8 (b + 1)) in if leb 62 unscaled then rest else b

-- The rest of it, from the count of rounds `b`. The exponent is `b - 1`; the test `15 < --b` is on
-- that.
unfoldable pub encode_fields : ℕ → ℕ → ℕ
encode_fields interval b =
    if ltb 0 b
    then (if ltb 15 (b - 1)
        then u8 (15 * 16 + 15)
        else u8 (u8 (u32 (interval / 2 ^ (b - 1 + 2) + 2 ^ 32 - 15)) * 16 + (b - 1)))
    else 0

unfoldable pub encode_olsrv1 : ℕ → ℕ
unfolding encode_loop encode_fields
encode_olsrv1 interval = encode_fields interval (encode_loop 32 interval 0)

-- `olsr_clock_decode_olsrv1`.
unfoldable pub decode_olsrv1 : ℕ → ℕ
decode_olsrv1 me =
    let a = me / 16 in
    let b = me % 16 in
    if leb 8 b then u32 ((16 + a) * 2 ^ (b - 8) * 1000) else (16 + a) * 1000 / 2 ^ (8 - b)
