-- ===== src/Duplicate/Entry.antt =====
-- `olsr_is_duplicate_message` on the entry of an originator: a message that comes twice, and a node
-- that restarts with low numbers.
use olsr.Prelude.{
  ℕ, ◌+◌, ◌-◌, ◌%◌, ◌^◌, ◌≤◌, ◌<◌, ◌≡◌, refl, true, false, arith, ◌⊎◌, inl, inr, ◌∙◌, List, [], ◌∷◌,
  All, ◌++◌, length, replicate, ap,
}
use olsr.Prelude.Bits.{test_bit}
use olsr.Duplicate.{
  DupEntry, Verdict, too_old, reset_seqno, check_too_low, check_window, advance, check_entry,
}
use olsr.Duplicate.Window.{behind, seen, InReach, check_entry_window, check_entry_far}

-- A number further behind than the window.
abbrev pub TooLow : DupEntry → ℕ → Type 0
TooLow entry seqno = (seqno < 2 ^ 16) × (32 ≤ behind entry seqno) × (behind entry seqno ≤ 2 ^ 15)

-- Every number is in reach or too low.
reach_cases :
    (entry : DupEntry) (seqno : ℕ)
    → (InReach entry seqno) ⊎ ((32 ≤ behind entry seqno) × (behind entry seqno ≤ 2 ^ 15))
reach_cases entry seqno = omega arith

-- The entry after a call that restarts it.
too_low_again :
    (entry : DupEntry) (seqno : ℕ)
    → (check_too_low seqno entry).1.is_duplicate ≡ false
    → check_too_low seqno entry ≡ (
      record entry { too_low_counter = 0; seqnr = seqno; array = 1 },
      record { is_duplicate = false; status = reset_seqno },
    )
unfolding check_too_low
too_low_again entry seqno h = ground arith

pub check_entry-ip : (entry : DupEntry) (seqno : ℕ) → (check_entry seqno entry).0.ip ≡ entry.ip
unfolding check_entry check_too_low check_window advance
check_entry-ip entry seqno = ground arith

check_entry_seqnr :
    (entry : DupEntry) (seqno : ℕ)
    → entry.seqnr < 2 ^ 16
    → seqno < 2 ^ 16
    → (check_entry seqno entry).0.seqnr < 2 ^ 16
unfolding check_entry check_too_low check_window advance
check_entry_seqnr entry seqno valid f = ground arith

seen_again :
    (entry : DupEntry) (seqno : ℕ)
    → entry.seqnr < 2 ^ 16
    → seqno < 2 ^ 16
    → seen entry seqno ≡ true
    → (check_entry seqno entry).1.is_duplicate ≡ true
seen_again entry seqno valid f h =
    let near : behind entry seqno < 32 = ground arith in
    (check_entry_window entry seqno seqno valid f f (inl near)).0 ∙ h

seen_after_reset :
    (entry : DupEntry) (seqno : ℕ)
    → seqno < 2 ^ 16
    → seen (record entry { too_low_counter = 0; seqnr = seqno; array = 1 }) seqno ≡ true
unfolding test_bit
seen_after_reset entry seqno f =
    let z : (seqno + 2 ^ 16 - seqno) % 2 ^ 16 ≡ 0 = omega arith in rw z refl

-- What a call accepts, it calls a duplicate if it comes once more.
pub check_entry_twice :
    (entry : DupEntry) (seqno : ℕ)
    → entry.seqnr < 2 ^ 16
    → seqno < 2 ^ 16
    → (check_entry seqno entry).1.is_duplicate ≡ false
    → (check_entry seqno (check_entry seqno entry).0).1.is_duplicate ≡ true
check_entry_twice entry seqno valid f h =
    seen_again (check_entry seqno entry).0 seqno (check_entry_seqnr entry seqno valid f) f
      (accepted (reach_cases entry seqno))
  where
    accepted :
        (InReach entry seqno) ⊎ ((32 ≤ behind entry seqno) × (behind entry seqno ≤ 2 ^ 15))
        → seen (check_entry seqno entry).0 seqno ≡ true
    accepted (inl near) = (check_entry_window entry seqno seqno valid f f near).1 ∙ ground arith
    accepted (inr (l, u)) =
        let e = check_entry_far entry seqno f valid l u in
        rw e (rw (too_low_again entry seqno (rw e at h)) (seen_after_reset entry seqno f))

-- The counter of numbers that are too low.
check_too_low_counts :
    (entry : DupEntry) (seqno : ℕ)
    → entry.too_low_counter < 16
    → check_too_low seqno entry ≡ (
      record entry { too_low_counter = entry.too_low_counter + 1 },
      record { is_duplicate = true; status = too_old },
    )
unfolding check_too_low
check_too_low_counts entry seqno h = ground arith

check_too_low_resets :
    (entry : DupEntry) (seqno : ℕ)
    → entry.too_low_counter ≡ 16
    → check_too_low seqno entry ≡ (
      record entry { too_low_counter = 0; seqnr = seqno; array = 1 },
      record { is_duplicate = false; status = reset_seqno },
    )
unfolding check_too_low
check_too_low_resets entry seqno h = ground arith

-- The verdicts on a row of messages of one originator.
unfoldable pub verdicts : DupEntry → List ℕ → List Verdict
verdicts entry [] = []
verdicts entry (m ∷ ms) = let r = check_entry m entry in r.1 ∷ verdicts r.0 ms

-- The entry behind the row.
unfoldable pub entry_after : DupEntry → List ℕ → DupEntry
entry_after entry [] = entry
entry_after entry (m ∷ ms) = entry_after (check_entry m entry).0 ms

-- A node that restarts with low numbers is heard after a bounded wait: with the counter at `16 - k`,
-- its next `k` messages with numbers that are too low are refused as too old, and the message after
-- them is accepted. The entry has then the number of this message as its newest, no other number
-- counts as seen, and the counter is 0.
pub verdicts_restart :
    (entry : DupEntry) (ms : List ℕ) (last : ℕ)
    → entry.seqnr < 2 ^ 16
    → length ms + entry.too_low_counter ≡ 16
    → All (TooLow entry) ms
    → TooLow entry last
    → (verdicts entry (ms ++ last ∷ [])
        ≡ replicate (length ms) (record { is_duplicate = true; status = too_old })
          ++ record { is_duplicate = false; status = reset_seqno } ∷ [])
      × (entry_after entry (ms ++ last ∷ [])
          ≡ record entry { too_low_counter = 0; seqnr = last; array = 1 })
unfolding verdicts entry_after
verdicts_restart entry [] last valid count all (f, l, u) =
    let reset =
      check_entry_far entry last f valid l u ∙ check_too_low_resets entry last (omega arith) in
    (rw reset refl, rw (reset, entry_after) refl)
verdicts_restart entry (m ∷ ms) last valid count ((f, l, u), all) low =
    let e = check_entry_far entry m f valid l u ∙ check_too_low_counts entry m (omega arith) in
    let next = record entry { too_low_counter = entry.too_low_counter + 1 } in
    let (said, left) = verdicts_restart next ms last valid (omega arith) all low in
    (
      rw e (ap (λ (t : List Verdict). record { is_duplicate = true; status = too_old } ∷ t) said),
      rw (e, entry_after) left,
    )
