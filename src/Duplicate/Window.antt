-- ===== src/Duplicate/Window.antt =====
-- The 32 bits of `array` are the set of the sequence numbers seen among the last 32.
use olsr.Prelude.{
  ℕ, ◌+◌, ◌-◌, ◌*◌, ◌%◌, ◌^◌, ◌≤◌, ◌<◌, ◌≡◌, refl, ltb, ◌==◌, if◌then◌else◌, Bool, false, ◌&&◌,
  ◌||◌, arith, ◌⊎◌, inl, inr, ◌∙◌,
}
use native.Mathlib.Nat.{pow-le-pow_right}
use olsr.Prelude.Int.{pos, negsuc}
use olsr.Prelude.Bits.{test_bit, test_bit-bit_or, bit_and-test_bit, test_bit-shift, test_bit-zero}
use olsr.Clock.{u32}
use olsr.Duplicate.{DupEntry, check_too_low, check_window, advance, check_entry, seqno_diff}
use olsr.Duplicate.Seqno.{seqno_diff_residue}

-- How far `seqno` lies behind the newest number.
abbrev pub behind : DupEntry → ℕ → ℕ
behind entry seqno = (entry.seqnr + 2 ^ 16 - seqno) % 2 ^ 16

-- Whether the window of the last 32 numbers holds `seqno` as seen.
abbrev pub seen : DupEntry → ℕ → Bool
seen entry seqno = ltb (behind entry seqno) 32 && test_bit entry.array (behind entry seqno)

-- A number that is not too low: in the window, or newer.
abbrev pub InReach : DupEntry → ℕ → Type 0
InReach entry seqno = (behind entry seqno < 32) ⊎ (2 ^ 15 < behind entry seqno)

module _ (entry : DupEntry) (seqno : ℕ) (fits : seqno < 2 ^ 16) (valid : entry.seqnr < 2 ^ 16) where
  diff_low :
      behind entry seqno < 32
      → seqno_diff seqno entry.seqnr
        ≡ (if behind entry seqno == 0 then pos 0 else negsuc (behind entry seqno - 1))
  diff_low h = ground (arith, seqno_diff_residue seqno entry.seqnr)

  diff_high :
      2 ^ 15 < behind entry seqno → seqno_diff seqno entry.seqnr ≡ pos (2 ^ 16 - behind entry seqno)
  diff_high h = ground (arith, seqno_diff_residue seqno entry.seqnr)

  check_entry_low :
      behind entry seqno < 32 → check_entry seqno entry ≡ check_window (behind entry seqno) entry
  unfolding check_entry
  check_entry_low h = ground (arith, diff_low h)

  check_entry_high :
      2 ^ 15 < behind entry seqno
      → check_entry seqno entry ≡ advance seqno (2 ^ 16 - behind entry seqno) entry
  unfolding check_entry
  check_entry_high h = ground (arith, diff_high h)

  pub check_entry_far :
      32 ≤ behind entry seqno
      → behind entry seqno ≤ 2 ^ 15
      → check_entry seqno entry ≡ check_too_low seqno entry
  unfolding check_entry
  check_entry_far h k = ground (arith, seqno_diff_residue seqno entry.seqnr)

u32_bit : (k : ℕ) → k < 32 → u32 (1 * 2 ^ k) ≡ 2 ^ k
u32_bit k h = omega (arith, pow-le-pow_right {n = 2} (omega arith) {i = k} {j = 31} (omega arith))

-- The parts that the theorem below joins: what the window says of each number after a call.
module _ (entry : DupEntry) (n : ℕ) (fits : n < 2 ^ 16) (valid : entry.seqnr < 2 ^ 16) where
  check_window-seen :
      (seqno : ℕ)
      → seqno < 2 ^ 16
      → behind entry seqno < 32
      → ((check_window (behind entry seqno) entry).1.is_duplicate ≡ seen entry seqno)
        × (seen (check_window (behind entry seqno) entry).0 n ≡ (n == seqno || seen entry n))
  unfolding check_window
  check_window-seen seqno f h = ground (
    arith,
    u32_bit (behind entry seqno),
    bit_and-test_bit entry.array (behind entry seqno),
    test_bit-bit_or entry.array (behind entry seqno) (behind entry n),
  )

  seen-advance :
      (seqno : ℕ)
      → seqno < 2 ^ 16
      → 2 ^ 15 < behind entry seqno
      → seen (advance seqno (2 ^ 16 - behind entry seqno) entry).0 n
        ≡ (n == seqno || seen entry n && ltb ((seqno + 2 ^ 16 - n) % 2 ^ 16) 32)
  unfolding advance
  seen-advance seqno f h =
      let b = (seqno + 2 ^ 16 - n) % 2 ^ 16 in
      let a = 2 ^ 16 - behind entry seqno in
      ground (
        arith,
        test_bit-bit_or (u32 (entry.array * 2 ^ a)) 0 b,
        test_bit-bit_or 0 0 b,
        test_bit-zero b,
        test_bit-shift entry.array a 32 b,
      )

check_window-behind :
    (entry : DupEntry) (back n : ℕ) → behind (check_window back entry).0 n ≡ behind entry n
unfolding check_window
check_window-behind entry back n = ground arith

advance_lem :
    (entry : DupEntry) (seqno ahead n : ℕ)
    → (behind (advance seqno ahead entry).0 n ≡ (seqno + 2 ^ 16 - n) % 2 ^ 16)
      × ((advance seqno ahead entry).1.is_duplicate ≡ false)
unfolding advance
advance_lem entry seqno ahead n = (refl, refl)

-- A message whose number is in reach (at most 31 behind the newest, or ahead of it) is called a
-- duplicate exactly if the window holds its number, and afterwards the window holds its number and
-- those numbers that it held before and that are among the last 32.
pub check_entry_window :
    (entry : DupEntry) (seqno n : ℕ)
    → entry.seqnr < 2 ^ 16
    → seqno < 2 ^ 16
    → n < 2 ^ 16
    → InReach entry seqno
    → ((check_entry seqno entry).1.is_duplicate ≡ seen entry seqno)
      × (seen (check_entry seqno entry).0 n
          ≡ (n == seqno || seen entry n && ltb (behind (check_entry seqno entry).0 n) 32))
check_entry_window entry seqno n valid f fits (inl low) =
    let (verdict, window) = check_window-seen entry n fits valid seqno f low in
    rw (check_entry_low entry seqno f valid low)
      (verdict, window ∙ ground (arith, check_window-behind entry (behind entry seqno) n))
check_entry_window entry seqno n valid f fits (inr high) =
    let (moved, fresh) = advance_lem entry seqno (2 ^ 16 - behind entry seqno) n in
    rw (check_entry_high entry seqno f valid high)
      (fresh ∙ ground arith, seen-advance entry n fits valid seqno f high ∙ ground (arith, moved))
