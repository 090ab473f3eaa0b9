-- ===== src/Duplicate/Tests.antt =====
-- Runs of the duplicate check, and the theorems at concrete inputs.
use olsr.Prelude.{
  ◌≡◌, refl, ltb, ◌==◌, true, false, ◌&&◌, ◌||◌, arith, inl, [], ◌∷◌, ◌++◌, replicate, none,
}
use olsr.Prelude.Int.{pos, negsuc, ◌+ℤ◌, ◌-ℤ◌}
use olsr.Timer.{Env}
use olsr.Duplicate.{
  DupEntry, DuplicateSet, too_old, duplicate, new, old, reset_seqno, seqno_diff, check_entry,
  check_window, find_entry, is_duplicate_message, check_tree, refresh,
}
use olsr.Duplicate.Window.{behind, seen, check_entry_window}
use olsr.Duplicate.Entry.{verdicts, entry_after, verdicts_restart}
use olsr.Duplicate.Set.{is_duplicate_message_repeated, is_duplicate_message_first}
use olsr.Duplicate.Invariant.{IsValid, is_duplicate_message-IsValid}

abbrev env : Env
env = record { now_times = 1000; rand_max = 2147483647; random = 5 }

-- The newest number is 100, and 98 was seen too.
abbrev entry : DupEntry
entry = record { ip = 7; seqnr = 100; too_low_counter = 14; array = 5; validity_timer = none }

abbrev sets : DuplicateSet
sets = record { forward_set = []; processing_set = entry ∷ [] }

sets-IsValid : IsValid sets
sets-IsValid = omega arith

wrapped_difference : (seqno_diff 3 65534 ≡ pos 5) × (seqno_diff 65534 3 ≡ negsuc 4)
unfolding seqno_diff ◌+ℤ◌ ◌-ℤ◌
wrapped_difference = (refl, refl)

late_number : (check_entry 98 entry).1 ≡ record { is_duplicate = true; status = duplicate }
unfolding check_entry check_window seqno_diff
late_number = refl

check_entry_window_example :
    ((check_entry 99 entry).1.is_duplicate ≡ seen entry 99)
    × (seen (check_entry 99 entry).0 98
        ≡ (98 == 99 || seen entry 98 && ltb (behind (check_entry 99 entry).0 98) 32))
check_entry_window_example =
    check_entry_window entry 99 98 (omega arith) (omega arith) (omega arith) (inl (omega arith))

verdicts_restart_example :
    (verdicts entry ((5 ∷ 6 ∷ []) ++ 7 ∷ [])
      ≡ replicate 2 (record { is_duplicate = true; status = too_old })
        ++ record { is_duplicate = false; status = reset_seqno } ∷ [])
    × (entry_after entry ((5 ∷ 6 ∷ []) ++ 7 ∷ [])
        ≡ record entry { too_low_counter = 0; seqnr = 7; array = 1 })
verdicts_restart_example =
    verdicts_restart entry (5 ∷ 6 ∷ []) 7 (omega arith) (omega arith) (omega arith) (omega arith)

accepted_once : (is_duplicate_message env 7 99 false sets).1.is_duplicate ≡ false
unfolding is_duplicate_message check_tree find_entry check_entry check_window seqno_diff refresh
accepted_once = refl

is_duplicate_message_repeated_example :
    (is_duplicate_message env 7 99 false
      (is_duplicate_message env 7 99 false sets).0).1.is_duplicate
    ≡ true
unfolding find_entry
is_duplicate_message_repeated_example =
    is_duplicate_message_repeated env env 7 99 false sets entry refl (omega arith) (omega arith)
      accepted_once

is_duplicate_message_first_example :
    ((is_duplicate_message env 9 3 false sets).1 ≡ record { is_duplicate = false; status = new })
    × ((is_duplicate_message env 9 3 false (is_duplicate_message env 9 3 false sets).0).1
        ≡ record { is_duplicate = false; status = old })
unfolding find_entry
is_duplicate_message_first_example =
    is_duplicate_message_first env env 9 3 false sets refl (omega arith)

is_duplicate_message-IsValid_example : IsValid (is_duplicate_message env 9 3 false sets).0
is_duplicate_message-IsValid_example =
    is_duplicate_message-IsValid env 9 3 false sets (omega arith) sets-IsValid
