-- ===== src/Clock/Wrap.antt =====
-- Timestamps across the wrap-around of the 32-bit millisecond clock.
use olsr.Prelude.{ℕ, ◌+◌, ◌-◌, ◌^◌, ◌<◌, ◌≡◌, leb, if◌then◌else◌, arith}
use olsr.Prelude.Int.{pos}
use olsr.Clock.{is_past, get_relative, get_absolute, u32}

-- A time `relative` milliseconds ahead counts as past exactly when at least that much has gone by,
-- also across a wrap of the clock, while both spans are below 2^31 ms.
pub is_past-get_absolute :
    (now relative elapsed : ℕ)
    → now < 2 ^ 32
    → relative < 2 ^ 31
    → elapsed < 2 ^ 31
    → is_past (u32 (now + elapsed)) (get_absolute now relative) ≡ leb relative elapsed
unfolding is_past get_absolute
is_past-get_absolute now relative elapsed h r e = ground arith

-- The time left until a timestamp `relative` ms ahead, which is below 2^31 ms: it is `relative`, but
-- one millisecond less where the clock wraps in between.
pub get_relative-get_absolute :
    (now relative : ℕ)
    → now < 2 ^ 32
    → relative < 2 ^ 31
    → get_relative now (get_absolute now relative)
      ≡ pos (if leb (2 ^ 32) (now + relative) then relative - 1 else relative)
unfolding get_relative get_absolute
get_relative-get_absolute now relative h r = ground arith
