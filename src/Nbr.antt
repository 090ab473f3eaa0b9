-- ===== src/Nbr.antt =====
-- neighbor_table.c: the two-hop neighbors, the connectors to them, and the status of a neighbor.
-- Neighbors and two-hop neighbors go by their addresses. A connector hangs in the tree of its
-- neighbor and in that of its two-hop neighbor: both trees are views of one list here.
pub mod Connectors
pub mod Table
pub mod Status
mod Tests
use olsr.Prelude.{
  ℕ, ltb, ◌==◌, if◌then◌else◌, Bool, true, false, not, ◌&&◌, ◌||◌, Option, none, some, List, [],
  ◌∷◌,
}
use olsr.Spf.{link_cost_broken}
use olsr.Spf.Nodes.{mem, remove, update}
use olsr.Timer.{Env, TimerEntry, start, change}
use olsr.Link.{LinkEntry, is_sym_link, lookup_link_status, get_best_link_to_neighbor}

-- `struct nbr_con`.
pub record Connector : Type 0 where
  pub nbr : ℕ
  pub nbr2 : ℕ
  pub nbr2_con_timer : Option TimerEntry
  pub second_hop_linkcost : ℕ
  pub path_linkcost : ℕ

pub record NbrTable : Type 0 where
  pub nbr2_tree : List ℕ
  pub connectors : List Connector
  pub is_sym : ℕ → Bool
  pub is_mpr : ℕ → Bool
  pub changes_neighborhood : Bool
  pub changes_topology : Bool
  pub link_changes : Bool

abbrev pub is_con : ℕ → ℕ → Connector → Bool
is_con nbr nbr2 c = c.nbr == nbr && c.nbr2 == nbr2

unfoldable pub lookup_con : List Connector → ℕ → ℕ → Option Connector
lookup_con [] nbr nbr2 = none
lookup_con (c ∷ cs) nbr nbr2 = if is_con nbr nbr2 c then some c else lookup_con cs nbr nbr2

-- Whether the tree of a two-hop neighbor is not empty.
unfoldable pub has_con : ℕ → List Connector → Bool
has_con nbr2 [] = false
has_con nbr2 (c ∷ cs) = nbr2 == c.nbr2 || has_con nbr2 cs

-- `avl_insert` into the tree of the two-hop neighbors.
unfoldable pub insert_nbr2 : ℕ → List ℕ → List ℕ
insert_nbr2 addr [] = addr ∷ []
insert_nbr2 addr (w ∷ ws) = if ltb addr w then addr ∷ w ∷ ws else w ∷ insert_nbr2 addr ws

unfoldable pub add_nbr2_entry : ℕ → NbrTable → NbrTable
add_nbr2_entry addr t =
    if mem addr t.nbr2_tree then t else record t { nbr2_tree = insert_nbr2 addr t.nbr2_tree }

-- `internal_delete_nbr_con`, which stops the timer of the connector, too.
unfoldable pub delete_con : ℕ → ℕ → List Connector → List Connector
delete_con nbr nbr2 [] = []
delete_con nbr nbr2 (c ∷ cs) = if is_con nbr nbr2 c then cs else c ∷ delete_con nbr nbr2 cs

-- The loop of `olsr_delete_nbr2_entry`.
unfoldable pub delete_all_con : ℕ → List Connector → List Connector
delete_all_con nbr2 [] = []
delete_all_con nbr2 (c ∷ cs) =
    if nbr2 == c.nbr2 then delete_all_con nbr2 cs else c ∷ delete_all_con nbr2 cs

unfoldable pub delete_nbr2_entry : ℕ → NbrTable → NbrTable
delete_nbr2_entry nbr2 t = record t {
  connectors = delete_all_con nbr2 t.connectors;
  nbr2_tree = remove nbr2 t.nbr2_tree;
  changes_neighborhood = true;
}

-- `olsr_delete_nbr_con`, and the callback `olsr_expire_nbr_con`.
unfoldable pub delete_nbr_con : ℕ → ℕ → NbrTable → NbrTable
delete_nbr_con nbr nbr2 t =
    let rest = delete_con nbr nbr2 t.connectors in
    if has_con nbr2 rest
    then record t { connectors = rest }
    else delete_nbr2_entry nbr2 (record t { connectors = rest })

abbrev restart : Env → ℕ → Option TimerEntry → Option TimerEntry
restart env vtime none = none
restart env vtime (some timer) = some (change env vtime 5 timer)

-- The timer of the connector that there is runs anew.
unfoldable pub renew_con : Env → ℕ → ℕ → ℕ → List Connector → List Connector
renew_con env vtime nbr nbr2 [] = []
renew_con env vtime nbr nbr2 (c ∷ cs) =
    if is_con nbr nbr2 c
    then record c { nbr2_con_timer = restart env vtime c.nbr2_con_timer } ∷ cs
    else c ∷ renew_con env vtime nbr nbr2 cs

unfoldable pub link_nbr_nbr2 : Env → ℕ → ℕ → ℕ → NbrTable → NbrTable
link_nbr_nbr2 env nbr nbr2_addr vtime t = elim (lookup_con t.connectors nbr nbr2_addr) [
  | some _ ↦ record t { connectors = renew_con env vtime nbr nbr2_addr t.connectors }
  | none ↦
      let added = add_nbr2_entry nbr2_addr t in
      record added {
        connectors =
            record {
              nbr = nbr;
              nbr2 = nbr2_addr;
              nbr2_con_timer = some (start env vtime 5 false);
              second_hop_linkcost = 0;
              path_linkcost = link_cost_broken;
            }
            ∷ added.connectors;
      }
]

-- What `olsr_update_nbr_status` reads: the clock, the links and `tc_redundancy`.
pub record StatusInput : Type 0 where
  pub now_times : ℕ
  pub links : List LinkEntry
  pub tc_redundancy : ℕ

abbrev signal : StatusInput → ℕ → NbrTable → Bool
signal input entry t = if ltb 1 input.tc_redundancy || t.is_mpr entry then true else t.link_changes

unfoldable pub become_sym : StatusInput → ℕ → NbrTable → NbrTable
become_sym input entry t =
    if not (t.is_sym entry)
    then (let dropped = if mem entry t.nbr2_tree then delete_nbr2_entry entry t else t in
        record dropped {
          changes_neighborhood = true;
          changes_topology = true;
          link_changes = signal input entry t;
          is_sym = update entry true t.is_sym;
        })
    else record t { is_sym = update entry true t.is_sym }

unfoldable pub become_not_sym : StatusInput → ℕ → NbrTable → NbrTable
become_not_sym input entry t =
    if t.is_sym entry
    then record t {
      changes_neighborhood = true;
      changes_topology =
          if ltb 1 input.tc_redundancy || t.is_mpr entry then true else t.changes_topology;
      link_changes = signal input entry t;
      is_sym = update entry false t.is_sym;
    }
    else record t { is_sym = update entry false t.is_sym }

unfoldable pub update_nbr_status : StatusInput → ℕ → NbrTable → NbrTable
update_nbr_status input entry t =
    elim (get_best_link_to_neighbor input.now_times input.links entry) [
      | none ↦ become_not_sym input entry t
      | some link ↦
          if is_sym_link (lookup_link_status input.now_times link)
          then become_sym input entry t
          else become_not_sym input entry t
    ]
