-- ===== src/Timer.antt =====
-- olsr_timer.c: the entries of the timer wheel and how their firing time is set. The slot that an
-- entry hangs in is `timer_clock` modulo the size of the wheel, so it is not kept apart; what the
-- callbacks do is the business of the components that start the timers.
pub mod Jitter
mod Tests
use olsr.Prelude.{
  ℕ, ◌+◌, ◌-◌, ◌*◌, ◌/◌, ◌%◌, ◌^◌, ltb, ◌==◌, if◌then◌else◌, Bool, ◌||◌, Option, none, some,
}
use olsr.Clock.{u32, get_absolute}

-- What a timer call reads from outside: the clock, RAND_MAX of the C library, and the value that
-- its next random() gives.
pub record Env : Type 0 where
  pub now_times : ℕ
  pub rand_max : ℕ
  pub random : ℕ

-- The fields of `struct olsr_timer_entry` that decide when it fires. `periodic` is the flag of its
-- `olsr_timer_info`.
pub record TimerEntry : Type 0 where
  pub timer_clock : ℕ
  pub timer_period : ℕ
  pub timer_jitter_pct : ℕ
  pub timer_random : ℕ
  pub periodic : Bool

-- The random part that `calc_jitter` takes off: the share of the interval, scaled by the random value.
unfoldable pub jitter_time : Env → ℕ → ℕ → ℕ → ℕ
jitter_time env rel_time jitter_pct random_val =
    random_val / (1 + env.rand_max / (u32 (jitter_pct * rel_time) / 100 + 1))

-- `calc_jitter`: an absolute time, up to `jitter_pct` percent before `rel_time` from now.
unfoldable pub calc_jitter : Env → ℕ → ℕ → ℕ → ℕ
calc_jitter env rel_time jitter_pct random_val =
    if jitter_pct == 0 || ltb 99 jitter_pct || ltb (2 ^ 24) rel_time
    then get_absolute env.now_times rel_time
    else (get_absolute env.now_times
        (u32 (rel_time + 2 ^ 32 - jitter_time env rel_time jitter_pct random_val)))

-- `olsr_timer_start`. The memory of a new entry is cleared, so it draws a random value.
unfoldable pub start : Env → ℕ → ℕ → Bool → TimerEntry
start env rel_time jitter_pct periodic = record {
  timer_clock = calc_jitter env rel_time jitter_pct env.random;
  timer_period = if periodic then rel_time else 0;
  timer_jitter_pct = jitter_pct;
  timer_random = env.random;
  periodic = periodic;
}

-- `olsr_timer_change` of a timer that is there. (A NULL timer stays NULL: `Option.map`.)
unfoldable pub change : Env → ℕ → ℕ → TimerEntry → TimerEntry
change env rel_time jitter_pct timer = record timer {
  timer_clock = calc_jitter env rel_time jitter_pct timer.timer_random;
  timer_period = if timer.periodic then rel_time else 0;
  timer_jitter_pct = jitter_pct;
}

-- `olsr_timer_set`: the pointer before the call, and after it.
unfoldable pub set : Env → ℕ → ℕ → Bool → Option TimerEntry → Option TimerEntry
set env rel_time jitter_pct periodic timer = if rel_time == 0 then none else (elim timer [
  | none ↦ some (start env rel_time jitter_pct periodic)
  | some t ↦ some (change env rel_time jitter_pct t)
])
