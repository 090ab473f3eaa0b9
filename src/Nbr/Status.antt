-- ===== src/Nbr/Status.antt =====
-- `olsr_update_nbr_status`: when a neighbor counts as symmetric, and what is signalled of it.
use olsr.Prelude.{
  ℕ, ◌<◌, ◌≡◌, ◌≢◌, ◌↔◌, refl, ltb, ◌==◌, ◌||◌, ◌&&◌, if◌then◌else◌, true, false, not, arith, inl,
  inr, ◌⊎◌,
}
use olsr.Spf.{link_cost_broken}
use olsr.Link.{LinkEntry}
use olsr.Link.Best.{LinkIn, IsSymTo, get_best_link_to_neighbor_lem}
use olsr.Nbr.{
  NbrTable, StatusInput, become_sym, become_not_sym, update_nbr_status, delete_nbr2_entry,
}

-- The neighbor has a symmetric link that is not broken.
abbrev pub HasSymLink : StatusInput → ℕ → Type 0
HasSymLink input entry =
    (l : LinkEntry) × LinkIn l input.links
    × IsSymTo input.now_times entry l
    × (l.linkcost < link_cost_broken)

-- The two outcomes.
update_nbr_status-cases :
    (input : StatusInput) (entry : ℕ) (t : NbrTable)
    → (HasSymLink input entry × (update_nbr_status input entry t ≡ become_sym input entry t))
      ⊎ (¬ HasSymLink input entry
          × (update_nbr_status input entry t ≡ become_not_sym input entry t))
unfolding update_nbr_status
update_nbr_status-cases input entry t =
    elim (get_best_link_to_neighbor_lem input.now_times input.links entry) [
      | inl (nothing, all) ↦ inr (
        (λ (l, has, sym_l, low). let high = all l has sym_l in omega arith),
        rw (nothing, update_nbr_status) refl,
      )
      | inr (best, found, has, sym_best, low, all) ↦
          inl ((best, has, sym_best, low), rw (found, sym_best.1, update_nbr_status) refl)
    ]

become_sym_lem :
    (input : StatusInput) (entry : ℕ) (t : NbrTable) (n : ℕ)
    → ((become_sym input entry t).is_sym n ≡ (if n == entry then true else t.is_sym n))
      × ((become_sym input entry t).link_changes ≡ (
          if not (t.is_sym entry) && (ltb 1 input.tc_redundancy || t.is_mpr entry)
          then true
          else t.link_changes))
unfolding become_sym delete_nbr2_entry
become_sym_lem input entry t n = ground arith

become_not_sym_lem :
    (input : StatusInput) (entry : ℕ) (t : NbrTable) (n : ℕ)
    → ((become_not_sym input entry t).is_sym n ≡ (if n == entry then false else t.is_sym n))
      × ((become_not_sym input entry t).link_changes ≡ (
          if t.is_sym entry && (ltb 1 input.tc_redundancy || t.is_mpr entry)
          then true
          else t.link_changes))
unfolding become_not_sym
become_not_sym_lem input entry t n = ground arith

-- `olsr_update_nbr_status` makes a neighbor symmetric exactly if it has a symmetric link that is not
-- broken, leaves all other neighbors as they are, and signals a change of the links, where none was
-- signalled yet, exactly if the neighbor's status has changed and `tc_redundancy` is above 1 or the
-- neighbor is a relay.
pub update_nbr_status_iff :
    (input : StatusInput) (entry : ℕ) (t : NbrTable)
    → t.link_changes ≡ false
    → (((update_nbr_status input entry t).is_sym entry ≡ true) ↔ HasSymLink input entry)
      × ((n : ℕ) → n ≢ entry → (update_nbr_status input entry t).is_sym n ≡ t.is_sym n)
      × (((update_nbr_status input entry t).link_changes ≡ true) ↔ (
          (update_nbr_status input entry t).is_sym entry ≢ t.is_sym entry
          × ((1 < input.tc_redundancy) ⊎ (t.is_mpr entry ≡ true))))
update_nbr_status_iff input entry t quiet = elim (update_nbr_status-cases input entry t) [
  | inl (has, same) ↦ rw same (
    ((λ h. has), (λ h. ground (arith, become_sym_lem input entry t entry))),
    (λ n other. ground (arith, become_sym_lem input entry t n)),
    ground (arith, become_sym_lem input entry t entry),
  )
  | inr (none_has, same) ↦ rw same (
    (
      (λ h. absurd (ground (arith, become_not_sym_lem input entry t entry))),
      (λ h. absurd (none_has h)),
    ),
    (λ n other. ground (arith, become_not_sym_lem input entry t n)),
    ground (arith, become_not_sym_lem input entry t entry),
  )
]
