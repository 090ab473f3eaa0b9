-- ===== src/Nbr/Table.antt =====
-- The two-hop neighbors are those that a connector leads to, through every change of the table.
use olsr.Prelude.{
  ℕ, ◌≡◌, refl, ◌==◌, if_cases, false, not, ◌||◌, arith, Option-cases, inl, inr, Bool-cases,
}
use olsr.Spf.Nodes.{mem, IsNodup, mem-remove, remove-IsNodup}
use olsr.Timer.{Env}
use olsr.Nbr.{
  NbrTable, lookup_con, has_con, add_nbr2_entry, delete_con, delete_nbr2_entry, delete_nbr_con,
  link_nbr_nbr2, StatusInput, become_sym, become_not_sym, update_nbr_status,
}
use olsr.Link.{is_sym_link, lookup_link_status, get_best_link_to_neighbor}
use olsr.Nbr.Connectors.{
  IsUnique, mem-insert_nbr2, insert_nbr2-IsNodup, delete_con-IsUnique, has_con-delete_con,
  delete_all_con-IsUnique, has_con-delete_all_con, has_con-delete_con_mono, renew_con-IsUnique,
  has_con-renew_con,
}

-- The tree of the two-hop neighbors has just those that some connector leads to, and neither has
-- duplicates.
pub record IsTable (t : NbrTable) : Type 0 where
  pub agree : (n : ℕ) → mem n t.nbr2_tree ≡ has_con n t.connectors
  pub nodup : IsNodup t.nbr2_tree
  pub unique : IsUnique t.connectors

-- Deleting a two-hop neighbor with its connectors keeps the rest of the table. Its own entry in the
-- tree may have lost its last connector before.
delete_nbr2_entry-IsTable :
    (nbr2 : ℕ) (t : NbrTable)
    → ((n : ℕ) → (n == nbr2) ≡ false → mem n t.nbr2_tree ≡ has_con n t.connectors)
    → IsNodup t.nbr2_tree
    → IsUnique t.connectors
    → IsTable (delete_nbr2_entry nbr2 t)
unfolding delete_nbr2_entry
delete_nbr2_entry-IsTable nbr2 t agree nodup unique = record {
  agree = λ n. ground (
    arith,
    agree n,
    mem-remove nbr2 n t.nbr2_tree nodup,
    has_con-delete_all_con nbr2 n t.connectors,
  );
  nodup = remove-IsNodup nbr2 t.nbr2_tree nodup;
  unique = delete_all_con-IsUnique nbr2 t.connectors unique;
}

delete_nbr_con-IsTable :
    (nbr nbr2 : ℕ) (t : NbrTable) → IsTable t → IsTable (delete_nbr_con nbr nbr2 t)
unfolding delete_nbr_con
delete_nbr_con-IsTable nbr nbr2 t v =
    let others = λ (n : ℕ). has_con-delete_con nbr nbr2 n t.connectors in
    if_cases IsTable (has_con nbr2 (delete_con nbr nbr2 t.connectors)) _ _
      (λ more. record {
        agree = λ n. elim (Bool-cases (n == nbr2)) [
          | inl same ↦
              ground
                (arith, more, v.agree nbr2, has_con-delete_con_mono nbr nbr2 nbr2 t.connectors more)
          | inr other ↦ ground (arith, others n, v.agree n)
        ];
        nodup = v.nodup;
        unique = delete_con-IsUnique nbr nbr2 t.connectors v.unique;
      })
      (λ last.
        delete_nbr2_entry-IsTable nbr2 (record t { connectors = delete_con nbr nbr2 t.connectors })
          (λ n other. ground (arith, others n, v.agree n)) v.nodup
          (delete_con-IsUnique nbr nbr2 t.connectors v.unique))

add_nbr2_entry_lem :
    (addr : ℕ) (t : NbrTable)
    → IsNodup t.nbr2_tree
    → ((add_nbr2_entry addr t).connectors ≡ t.connectors)
      × ((n : ℕ) → mem n (add_nbr2_entry addr t).nbr2_tree ≡ (n == addr || mem n t.nbr2_tree))
      × IsNodup (add_nbr2_entry addr t).nbr2_tree
unfolding add_nbr2_entry
add_nbr2_entry_lem addr t nodup =
    if_cases
      (λ (r : NbrTable).
        (r.connectors ≡ t.connectors)
        × ((n : ℕ) → mem n r.nbr2_tree ≡ (n == addr || mem n t.nbr2_tree))
        × IsNodup r.nbr2_tree)
      (mem addr t.nbr2_tree) _ _ (λ there. (refl, (λ n. ground (arith, there)), nodup))
      (λ absent. (
        refl,
        (λ n. mem-insert_nbr2 addr n t.nbr2_tree),
        insert_nbr2-IsNodup addr t.nbr2_tree absent nodup,
      ))

link_nbr_nbr2-IsTable :
    (env : Env) (nbr nbr2 vtime : ℕ) (t : NbrTable)
    → IsTable t
    → IsTable (link_nbr_nbr2 env nbr nbr2 vtime t)
unfolding link_nbr_nbr2 has_con
link_nbr_nbr2-IsTable env nbr nbr2 vtime t v =
    elim (Option-cases (lookup_con t.connectors nbr nbr2)) [
      | inr (c, found) ↦
          rw (found, link_nbr_nbr2)
            (record {
              agree = λ n.
                  ground (arith, v.agree n, has_con-renew_con env vtime nbr nbr2 n t.connectors);
              nodup = v.nodup;
              unique = renew_con-IsUnique env vtime nbr nbr2 t.connectors v.unique;
            })
      | inl absent ↦
          let (same, tree, nodup) = add_nbr2_entry_lem nbr2 t v.nodup in
          rw (absent, link_nbr_nbr2)
            (record {
              agree = λ n. rw same (ground (arith, tree n, v.agree n));
              nodup = nodup;
              unique = (rw same absent, rw same v.unique);
            })
    ]

become_sym-IsTable :
    (input : StatusInput) (entry : ℕ) (t : NbrTable)
    → IsTable t
    → IsTable (become_sym input entry t)
unfolding become_sym
become_sym-IsTable input entry t v =
    if_cases IsTable (not (t.is_sym entry)) _ _
      (λ _.
        let dropped =
          if_cases IsTable (mem entry t.nbr2_tree) _ _
            (λ _. delete_nbr2_entry-IsTable entry t (λ n other. v.agree n) v.nodup v.unique)
            (λ _. v) in
        record { agree = dropped.agree; nodup = dropped.nodup; unique = dropped.unique })
      (λ _. record { agree = v.agree; nodup = v.nodup; unique = v.unique })

become_not_sym-IsTable :
    (input : StatusInput) (entry : ℕ) (t : NbrTable)
    → IsTable t
    → IsTable (become_not_sym input entry t)
unfolding become_not_sym
become_not_sym-IsTable input entry t v =
    if_cases IsTable (t.is_sym entry) _ _
      (λ _. record { agree = v.agree; nodup = v.nodup; unique = v.unique })
      (λ _. record { agree = v.agree; nodup = v.nodup; unique = v.unique })

update_nbr_status-IsTable :
    (input : StatusInput) (entry : ℕ) (t : NbrTable)
    → IsTable t
    → IsTable (update_nbr_status input entry t)
unfolding update_nbr_status
update_nbr_status-IsTable input entry t v =
    elim (Option-cases (get_best_link_to_neighbor input.now_times input.links entry)) [
      | inl nothing ↦ rw (nothing, update_nbr_status) (become_not_sym-IsTable input entry t v)
      | inr (link, found) ↦
          rw (found, update_nbr_status)
            (if_cases IsTable (is_sym_link (lookup_link_status input.now_times link)) _ _
              (λ _. become_sym-IsTable input entry t v)
              (λ _. become_not_sym-IsTable input entry t v))
    ]

-- Linking a neighbor with a two-hop neighbor, deleting a connector or letting it expire, deleting a
-- two-hop neighbor and updating the status of a neighbor all keep it so that the two-hop neighbors
-- are those that a connector leads to, each once, and that no two connectors join the same two.
pub operations-IsTable :
    (t : NbrTable) (env : Env) (input : StatusInput) (nbr nbr2 vtime : ℕ)
    → IsTable t
    → IsTable (link_nbr_nbr2 env nbr nbr2 vtime t)
      × IsTable (delete_nbr_con nbr nbr2 t)
      × IsTable (delete_nbr2_entry nbr2 t)
      × IsTable (update_nbr_status input nbr t)
operations-IsTable t env input nbr nbr2 vtime v = (
  link_nbr_nbr2-IsTable env nbr nbr2 vtime t v,
  delete_nbr_con-IsTable nbr nbr2 t v,
  delete_nbr2_entry-IsTable nbr2 t (λ n other. v.agree n) v.nodup v.unique,
  update_nbr_status-IsTable input nbr t v,
)
