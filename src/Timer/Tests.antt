-- ===== src/Timer/Tests.antt =====
-- A timer of two seconds with 25 percent of jitter, and the theorem on it.
use olsr.Prelude.{◌+◌, ◌*◌, ◌/◌, ◌≤◌, ◌≡◌, refl, true, arith}
use olsr.Clock.{u32, is_past, get_absolute}
use olsr.Timer.{Env, jitter_time, calc_jitter}
use olsr.Timer.Jitter.{calc_jitter_fires}

abbrev late_night : Env
late_night = record { now_times = 4294966296; rand_max = 2147483647; random = 1073741824 }

two_seconds_timer : calc_jitter late_night 2000 25 1073741824 ≡ 750
unfolding calc_jitter jitter_time get_absolute
two_seconds_timer = refl

calc_jitter_fires_example :
    (2000 ≤ 2500
      → is_past (u32 (4294966296 + 2500)) (calc_jitter late_night 2000 25 1073741824) ≡ true)
    × (is_past (u32 (4294966296 + 2500)) (calc_jitter late_night 2000 25 1073741824) ≡ true
        → 2000 ≤ 2500 + 25 * 2000 / 100)
calc_jitter_fires_example =
    calc_jitter_fires late_night 2000 25 1073741824 (omega arith) 2500 (omega arith) (omega arith)
      (omega arith)
