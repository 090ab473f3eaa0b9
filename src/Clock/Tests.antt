-- ===== src/Clock/Tests.antt =====
-- Runs of the clock functions, and the theorems at concrete inputs.
use olsr.Prelude.{◌+◌, ◌*◌, ◌^◌, ◌<◌, ◌≤◌, ◌≡◌, refl, leb, arith, if◌then◌else◌}
use olsr.Prelude.Int.{pos}
use olsr.Clock.{u32, is_past, get_relative, get_absolute, encode_olsrv1, decode_olsrv1}
use olsr.Clock.Wrap.{is_past-get_absolute, get_relative-get_absolute}
use olsr.Clock.Mantissa.{decode-encode_bounds}

-- Two seconds are sent as 0x05, which stands for exactly two seconds.
two_seconds : (encode_olsrv1 2000 ≡ 0x05) × (decode_olsrv1 0x05 ≡ 2000)
unfolding encode_olsrv1 decode_olsrv1
two_seconds = (refl, refl)

-- One second before the wrap of the clock, a timer of two seconds.
wrapping_timer : get_relative 4294966296 (get_absolute 4294966296 2000) ≡ pos 1999
unfolding get_relative get_absolute
wrapping_timer = refl

is_past-get_absolute_example :
    is_past (u32 (4294966296 + 2500)) (get_absolute 4294966296 2000) ≡ leb 2000 2500
is_past-get_absolute_example =
    is_past-get_absolute 4294966296 2000 2500 (omega arith) (omega arith) (omega arith)

get_relative-get_absolute_example :
    get_relative 4294966296 (get_absolute 4294966296 2000)
    ≡ pos (if leb (2 ^ 32) (4294966296 + 2000) then 1999 else 2000)
get_relative-get_absolute_example =
    get_relative-get_absolute 4294966296 2000 (omega arith) (omega arith)

decode-encode_bounds_example :
    (125 * 7777 < 128 * (decode_olsrv1 (encode_olsrv1 7777) + 1))
    × (24 * decode_olsrv1 (encode_olsrv1 7777) ≤ 25 * 7777)
decode-encode_bounds_example = decode-encode_bounds 7777 (omega arith) (omega arith)
