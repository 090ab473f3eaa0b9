-- ===== src/Route/Prefixes.antt =====
-- Prefixes of the routing table of src/routing_table.c: they come with the messages of a vertex, get
-- a route entry once the vertex is reached, and go.
use olsr.Prelude.{
  ℕ, ◌+◌, ◌*◌, true, false, not, ◌&&◌, ◌||◌, ◌==◌, ltb, if◌then◌else◌, List, [], ◌∷◌, Option, none,
  some,
}
use olsr.Spf.{route_cost_broken}
use olsr.Route.{
  prefix_len, RtPath, RtEntry, Rib, RtConfig, insert_path, insert_entry, find_path, write_path,
  remove_path, find_entry, write_entry, path_tree, Reached, update_rt_path, alloc_rt_entry,
  alloc_rt_path, is_at, rt_best, RtPath, RtEntry, Rib, RtConfig, Reached,
}

-- The entry of a prefix, which `olsr_insert_rt_path` makes if it is not there.
unfoldable pub ensure_entry : ℕ → List RtEntry → List RtEntry
ensure_entry dst es = elim (find_entry dst es) [
  | none ↦ insert_entry (alloc_rt_entry dst) es
  | some rt ↦ es
]

-- `olsr_insert_rt_path`.
unfoldable pub insert_rt_path : RtConfig → RtPath → Reached → Rib → Rib
insert_rt_path cfg rtp tc rib =
    if tc.path_cost == route_cost_broken || ltb (8 * cfg.ipsize) (prefix_len rtp.dst)
    then rib
    else record rib {
      entries = ensure_entry rtp.dst rib.entries;
      paths =
          write_path rtp.id (λ p. update_rt_path rib.version tc (record p { rtp_rt = true }))
            rib.paths;
    }

-- The election in `olsr_delete_rt_path` of a path that is best, among the paths in trees that are
-- left: the entries, and the internet gateway.
unfoldable pub elect_without : RtConfig → RtPath → List RtPath → Rib → List RtEntry × Option ℕ
elect_without cfg rtp rest rib = elim (find_entry rtp.dst rib.entries) [
  | none ↦ (rib.entries, rib.current_inetgw)
  | some rt ↦
      if rtp.rtp_rt && is_at rt.best rtp.id
      then (elim (path_tree rtp.dst rest) [
        | [] ↦ (write_entry rtp.dst (λ e. record e { best = none }) rib.entries, rib.current_inetgw)
        | p ∷ ps ↦
            let r = rt_best cfg rib.current_inetgw rest rt in
            (write_entry rtp.dst (λ e. record e { best = r.0.best }) rib.entries, r.1)
      ])
      else (rib.entries, rib.current_inetgw)
]

-- `olsr_delete_rt_path`. The best path is elected while the old one still has its memory.
unfoldable pub delete_rt_path : RtConfig → ℕ → Rib → Rib
delete_rt_path cfg id rib = elim (find_path id rib.paths) [
  | none ↦ rib
  | some rtp ↦
      let rest = write_path id (λ p. record p { rtp_rt = false }) rib.paths in
      let elected = elect_without cfg rtp rest rib in
      record rib {
        paths = remove_path id rest;
        entries = elected.0;
        current_inetgw = elim elected.1 [
          | none ↦ none
          | some gw ↦ if gw == id then none else some gw
        ];
      }
]

-- The search in the prefix tree of a vertex.
unfoldable pub find_prefix : ℕ → ℕ → ℕ → List RtPath → Option RtPath
find_prefix originator prefix origin [] = none
find_prefix originator prefix origin (p ∷ ps) =
    let rest = find_prefix originator prefix origin ps in
    if p.originator == originator && p.dst == prefix && p.origin == origin then some p else rest

-- `olsr_insert_routing_table` for a vertex that is there, where new memory is at `id`.
unfoldable pub insert_routing_table : RtConfig → ℕ → ℕ → ℕ → ℕ → ℕ → Rib → Rib
insert_routing_table cfg id dst plen originator origin rib =
    if ltb (8 * cfg.ipsize) plen
    then rib
    else (elim (find_prefix originator (dst * 256 + plen) origin rib.paths) [
      | some rtp ↦ rib
      | none ↦ record rib {
        paths = insert_path cfg (alloc_rt_path id originator (dst * 256 + plen) origin) rib.paths;
        changes_hna = true;
      }
    ])

-- `olsr_delete_routing_table`; a vertex that is not there has no paths.
unfoldable pub delete_routing_table : RtConfig → ℕ → ℕ → ℕ → ℕ → Rib → Rib
delete_routing_table cfg dst plen originator origin rib =
    if ltb (8 * cfg.ipsize) plen
    then rib
    else (elim (find_prefix originator (dst * 256 + plen) origin rib.paths) [
      | none ↦ rib
      | some rtp ↦ record (delete_rt_path cfg rtp.id rib) { changes_hna = true }
    ])

-- A round of the walk over the prefixes of a reached vertex in `olsr_calculate_routing_table`.
unfoldable pub route_prefix : RtConfig → ℕ → Reached → RtPath → Rib → Rib
route_prefix cfg originator tc rtp rib =
    if not (rtp.originator == originator)
    then rib
    else if rtp.rtp_rt
    then record rib { paths = write_path rtp.id (update_rt_path rib.version tc) rib.paths }
    else insert_rt_path cfg rtp tc rib

unfoldable pub route_prefixes : RtConfig → ℕ → Reached → List RtPath → Rib → Rib
route_prefixes cfg originator tc [] rib = rib
route_prefixes cfg originator tc (rtp ∷ more) rib =
    route_prefixes cfg originator tc more (route_prefix cfg originator tc rtp rib)

-- The loop of `olsr_calculate_routing_table` over the path list: each vertex with what it was
-- reached by, none if it has no next hop.
unfoldable pub route_path_list : RtConfig → List (ℕ × Option Reached) → Rib → Rib
route_path_list cfg [] rib = rib
route_path_list cfg ((originator, none) ∷ more) rib = route_path_list cfg more rib
route_path_list cfg ((originator, some tc) ∷ more) rib =
    route_path_list cfg more (route_prefixes cfg originator tc rib.paths rib)
