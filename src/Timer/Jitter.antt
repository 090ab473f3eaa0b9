-- ===== src/Timer/Jitter.antt =====
-- Jitter only makes a timer fire earlier, and by no more than its share of the interval.
use native.Mathlib.Nat.{mod-lt, div-add-mod, div-lt_iff_lt-mul}
use olsr.Prelude.{ℕ, ◌+◌, ◌-◌, ◌*◌, ◌/◌, ◌%◌, ◌^◌, ◌≤◌, ◌<◌, ◌≡◌, arith, true}
use olsr.Clock.{is_past, u32}
use olsr.Clock.Wrap.{is_past-get_absolute}
use olsr.Timer.{Env, jitter_time, calc_jitter}

-- A random value up to RAND_MAX is scaled to at most `j`.
scale-le : (r top j : ℕ) → r ≤ top → r / (1 + top / (j + 1)) ≤ j
scale-le r top j h =
    let c = top / (j + 1) in
    let rest : top % (j + 1) < j + 1 = mod-lt top {m = j + 1} (omega arith) in
    let split : (j + 1) * c + top % (j + 1) ≡ top = div-add-mod top (j + 1) in
    let below : r / (1 + c) < j + 1 =
      (div-lt_iff_lt-mul {k = 1 + c} (omega arith)).1 (omega (arith, rest, split)) in
    omega (arith, below)

product_small : (a b : ℕ) → a ≤ 99 → a * b ≤ 99 * b
product_small a b h = grind arith

module _ (env : Env) (rel_time jitter_pct random_val : ℕ) (valid : random_val ≤ env.rand_max) where
  jitter_time-le :
      jitter_pct ≤ 99
      → rel_time ≤ 2 ^ 24
      → jitter_time env rel_time jitter_pct random_val ≤ jitter_pct * rel_time / 100
  unfolding jitter_time
  jitter_time-le p t =
      let fits : u32 (jitter_pct * rel_time) ≡ jitter_pct * rel_time =
        omega (arith, product_small jitter_pct rel_time p) in
      rw fits (scale-le random_val env.rand_max (jitter_pct * rel_time / 100) valid)

  share-le : jitter_pct ≤ 99 → jitter_pct * rel_time / 100 ≤ rel_time
  share-le p = omega (arith, product_small jitter_pct rel_time p)

  -- A timer set `rel_time` ahead, which is below 2^31 ms, fires neither before its jitter share ahead
  -- of that time nor after it, also where the clock wraps.
  pub calc_jitter_fires :
      (elapsed : ℕ)
      → env.now_times < 2 ^ 32
      → rel_time < 2 ^ 31
      → elapsed < 2 ^ 31
      → (rel_time ≤ elapsed
          → is_past (u32 (env.now_times + elapsed)) (calc_jitter env rel_time jitter_pct random_val)
            ≡ true)
        × (is_past (u32 (env.now_times + elapsed)) (calc_jitter env rel_time jitter_pct random_val)
              ≡ true
            → rel_time ≤ elapsed + jitter_pct * rel_time / 100)
  unfolding calc_jitter
  calc_jitter_fires elapsed n r e = ground (
    arith,
    jitter_time-le,
    share-le,
    is_past-get_absolute env.now_times rel_time elapsed,
    is_past-get_absolute env.now_times (rel_time - jitter_time env rel_time jitter_pct random_val)
        elapsed,
  )
