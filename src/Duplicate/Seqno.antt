-- ===== src/Duplicate/Seqno.antt =====
-- `olsr_seqno_diff` is the difference of two 16-bit sequence numbers, as a signed 16-bit number.
use olsr.Prelude.{ℕ, ◌+◌, ◌-◌, ◌%◌, ◌^◌, ◌<◌, ◌≡◌, ltb, if◌then◌else◌, arith}
use olsr.Prelude.Int.{pos, negsuc, ◌+ℤ◌, ◌-ℤ◌}
use olsr.Duplicate.{seqno_diff}

-- It is the residue of the difference modulo 2^16 that lies from -2^15 to 2^15 - 1.
pub seqno_diff_residue :
    (reference other : ℕ)
    → reference < 2 ^ 16
    → other < 2 ^ 16
    → seqno_diff reference other ≡ (
        let ahead = (reference + 2 ^ 16 - other) % 2 ^ 16 in
        if ltb ahead (2 ^ 15) then pos ahead else negsuc (2 ^ 16 - ahead - 1))
unfolding seqno_diff ◌+ℤ◌ ◌-ℤ◌
seqno_diff_residue reference other r o = ground arith
