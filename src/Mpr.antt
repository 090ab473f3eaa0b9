-- ===== src/Mpr.antt =====
-- lq_mpr.c: the selection of the multipoint relays. Neighbor entries go by numbers; `nbr_tree` lists
-- them in tree order.
pub mod Pick
pub mod Select
pub mod Cover
pub mod Calculate
mod Tests
use olsr.Prelude.{
  ℕ, zero, suc, ltb, ◌==◌, if◌then◌else◌, Bool, true, false, not, ◌&&◌, ◌||◌, Option, none, some,
  List, [], ◌∷◌, map,
}
use olsr.Spf.Nodes.{mem, update}
use olsr.Spf.{link_cost_broken, route_cost_broken}
use olsr.Link.{LinkEntry, get_best_link_to_neighbor}

abbrev pub will_always : ℕ
will_always = 7

-- The fields of `struct nbr_entry` that the selection uses.
pub record NbrEntry : Type 0 where
  pub willingness : ℕ
  pub is_sym : Bool
  pub is_mpr : Bool
  pub was_mpr : Bool
  pub skip : Bool

-- `struct nbr_con`, from a two-hop neighbor to a neighbor.
pub record NbrCon : Type 0 where
  pub nbr : ℕ
  pub second_hop_linkcost : ℕ
  pub path_linkcost : ℕ

pub record Nbr2Entry : Type 0 where
  pub nbr2_addr : ℕ
  pub con_tree : List NbrCon

abbrev pub Table : Type 0
Table = ℕ → NbrEntry

-- The first loop of `olsr_calculate_lq_mpr2`, on one neighbor.
unfoldable pub clear_mpr : NbrEntry → NbrEntry
clear_mpr neigh =
    if neigh.is_sym && not (neigh.willingness == will_always)
    then record neigh { is_mpr = true }
    else record neigh { is_mpr = false }

-- A change of the entries of a tree, one after the other.
unfoldable pub for_all_nbr : (NbrEntry → NbrEntry) → List ℕ → Table → Table
for_all_nbr f [] nbr = nbr
for_all_nbr f (n ∷ ns) nbr = for_all_nbr f ns (update n (f (nbr n)) nbr)

-- Whether a connector is one that the search for the best neighbor looks at.
unfoldable pub is_eligible : Table → NbrCon → Bool
is_eligible nbr walker =
    (nbr walker.nbr).is_sym
    && not (nbr walker.nbr).skip
    && ltb walker.second_hop_linkcost link_cost_broken

-- The search for the best neighbor that has not been selected: `neigh` and `best` are what has been
-- found so far.
unfoldable pub pick : Table → List NbrCon → Option ℕ → ℕ → Option ℕ
pick nbr [] neigh best = neigh
pick nbr (walker ∷ con) neigh best =
    let found = pick nbr con (some walker.nbr) walker.path_linkcost in
    let same = pick nbr con neigh best in
    if is_eligible nbr walker && ltb walker.path_linkcost best then found else same

abbrev pub choose : NbrEntry → NbrEntry
choose neigh = record neigh { is_mpr = true; skip = true }

-- The loop over `k`, for `mpr_coverage` rounds.
unfoldable pub select : ℕ → List NbrCon → ℕ → Table → Table
select zero con best_1hop nbr = nbr
select (suc k) con best_1hop nbr = elim (pick nbr con none best_1hop) [
  | none ↦ nbr
  | some n ↦ select k con best_1hop (update n (choose (nbr n)) nbr)
]

-- Whether the way over some neighbor is better than the direct link.
unfoldable pub found_better_path : List NbrCon → ℕ → Bool
found_better_path [] best_1hop = false
found_better_path (walker ∷ con) best_1hop =
    if ltb walker.path_linkcost best_1hop then true else found_better_path con best_1hop

unfoldable pub clear_skip : List NbrCon → Table → Table
clear_skip [] nbr = nbr
clear_skip (walker ∷ con) nbr =
    clear_skip con (update walker.nbr (record (nbr walker.nbr) { skip = false }) nbr)

-- What a round knows from outside: the clock, the links, and `mpr_coverage` of the configuration.
pub record Setting : Type 0 where
  pub now_times : ℕ
  pub links : List LinkEntry
  pub nbr_tree : List ℕ
  pub mpr_coverage : ℕ

-- `best_1hop`: `none` if the symmetric neighbor has no link, where the two-hop neighbor is left out.
unfoldable pub direct_cost : Setting → Table → ℕ → Option ℕ
direct_cost set nbr addr =
    if mem addr set.nbr_tree && (nbr addr).is_sym
    then elim (get_best_link_to_neighbor set.now_times set.links addr) [
      | none ↦ none
      | some lnk ↦ some lnk.linkcost
    ]
    else some route_cost_broken

-- The body of the loop over the two-hop neighbors.
unfoldable pub cover : Setting → Nbr2Entry → Table → Table
cover set nbr2 nbr = elim (direct_cost set nbr nbr2.nbr2_addr) [
  | none ↦ nbr
  | some best_1hop ↦
      if found_better_path nbr2.con_tree best_1hop
      then select set.mpr_coverage nbr2.con_tree best_1hop (clear_skip nbr2.con_tree nbr)
      else nbr
]

unfoldable pub cover_all : Setting → List Nbr2Entry → Table → Table
cover_all set [] nbr = nbr
cover_all set (nbr2 ∷ nbr2s) nbr = cover_all set nbr2s (cover set nbr2 nbr)

unfoldable pub calculate_lq_mpr2 : Setting → List Nbr2Entry → Table → Table
calculate_lq_mpr2 set nbr2_tree nbr =
    cover_all set nbr2_tree (for_all_nbr clear_mpr set.nbr_tree nbr)

-- The state that `olsr_calculate_lq_mpr` changes.
pub record MprState : Type 0 where
  pub nbr : Table
  pub links : List LinkEntry
  pub link_changes : Bool

unfoldable pub differ : Bool → Bool → Bool
differ true b = not b
differ false b = b

unfoldable pub mpr_changes : List ℕ → Table → Bool
mpr_changes [] nbr = false
mpr_changes (n ∷ ns) nbr =
    if differ (nbr n).was_mpr (nbr n).is_mpr then true else mpr_changes ns nbr

unfoldable pub copy_mpr : Table → List LinkEntry → List LinkEntry
copy_mpr nbr [] = []
copy_mpr nbr (lnk ∷ links) = record lnk { is_mpr = (nbr lnk.neighbor).is_mpr } ∷ copy_mpr nbr links

abbrev pub store_old : NbrEntry → NbrEntry
store_old neigh = record neigh { was_mpr = neigh.is_mpr }

-- `olsr_calculate_lq_mpr`, by the clock, the neighbor tree, `mpr_coverage`, `tc_redundancy` and the
-- two-hop neighbors.
unfoldable pub calculate_lq_mpr : ℕ → List ℕ → ℕ → ℕ → List Nbr2Entry → MprState → MprState
calculate_lq_mpr now_times nbr_tree mpr_coverage tc_redundancy nbr2_tree s =
    let set : Setting = record {
      now_times = now_times;
      links = s.links;
      nbr_tree = nbr_tree;
      mpr_coverage = mpr_coverage;
    } in
    let nbr = calculate_lq_mpr2 set nbr2_tree (for_all_nbr store_old nbr_tree s.nbr) in
    if not (mpr_changes nbr_tree nbr) then record s { nbr = nbr } else record {
      nbr = nbr;
      links = copy_mpr nbr s.links;
      link_changes = if ltb 0 tc_redundancy then true else s.link_changes;
    }
