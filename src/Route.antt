-- ===== src/Route.antt =====
-- The routing table of src/routing_table.c: the paths to each prefix, and the best of them. A path is
-- one element of `paths`, which stands for the prefix trees of all vertices; those with `rtp_rt` set
-- also hang in the path tree of the route entry of their prefix, in this order, which is that of the
-- comparison for IPv4 as far as it is an order. A pointer to a path is its number `id`. A prefix is
-- the number of its address times 256 plus its length. Memory is always there.
pub mod Compare
pub mod Prefixes
pub mod Kernel
pub mod Compute
mod Tests
use olsr.Prelude.{
  ℕ, zero, suc, ◌+◌, ◌-◌, ◌*◌, ◌/◌, ◌%◌, ◌^◌, Bool, true, false, not, ◌&&◌, ◌||◌, ◌==◌, ltb, leb,
  if◌then◌else◌, List, [], ◌∷◌, Option, none, some,
}
use olsr.Prelude.Int.{ℤ, pos, negsuc, sub_ℕ, ltb_ℤ, ◌-ℤ◌}
use olsr.Packet.{signed}
use olsr.Spf.{route_cost_broken}

abbrev pub address : ℕ → ℕ
address prefix = prefix / 256

abbrev pub prefix_len : ℕ → ℕ
prefix_len prefix = prefix % 256

-- `struct rt_nexthop`.
pub record Nexthop : Type 0 where
  pub gateway : ℕ
  pub interface : Option ℕ

-- `struct rt_path`; the address and the origin code of `rtp_originator` are fields of their own.
pub record RtPath : Type 0 where
  pub id : ℕ
  pub originator : ℕ
  pub origin : ℕ
  pub dst : ℕ
  pub rtp_rt : Bool
  pub nexthop : Nexthop
  pub cost : ℕ
  pub hops : ℕ
  pub version : ℕ

-- `struct rt_entry`: what the kernel has is its `nexthop` and its metric.
pub record RtEntry : Type 0 where
  pub dst : ℕ
  pub best : Option ℕ
  pub nexthop : Nexthop
  pub cost : ℕ
  pub hops : ℕ
  pub failure_count : ℤ

-- `routingtree`, `routingtree_version`, `current_inetgw`, the queue of changes for the kernel, and
-- the flag for the networks.
pub record Rib : Type 0 where
  pub paths : List RtPath
  pub entries : List RtEntry
  pub version : ℕ
  pub current_inetgw : Option ℕ
  pub chg_kernel_list : List ℕ
  pub changes_hna : Bool

-- `olsr_init_routing_table`, with `olsr_init_export_route`.
abbrev pub init_routing_table : Rib
init_routing_table = record {
  paths = [];
  entries = [];
  version = 0;
  current_inetgw = none;
  chg_kernel_list = [];
  changes_hna = false;
}

-- The options that the routing table reads, and the byte order of the machine.
pub record RtConfig : Type 0 where
  pub ipsize : ℕ
  pub lq_nat_thresh : ℕ
  pub fibm_correct : Bool
  pub ntohl : ℕ → ℕ

-- `avl_comp_ipv4_addr_origin`.
unfoldable pub comp_addr_origin : RtConfig → RtPath → RtPath → ℤ
comp_addr_origin cfg p1 p2 =
    let addr1 = cfg.ntohl p1.originator in
    let addr2 = cfg.ntohl p2.originator in
    if addr1 == addr2
    then sub_ℕ p2.origin p1.origin
    else signed 32 ((addr2 + 2 ^ 32 - addr1) % 2 ^ 32)

-- `avl_comp_ipv4_prefix`.
unfoldable pub comp_prefix : ℕ → ℕ → ℤ
comp_prefix dst1 dst2 =
    if ltb (address dst2) (address dst1)
    then pos 1
    else (if ltb (address dst1) (address dst2)
        then negsuc 0
        else sub_ℕ (prefix_len dst2) (prefix_len dst1))

-- `avl_insert` of a path.
unfoldable pub insert_path : RtConfig → RtPath → List RtPath → List RtPath
insert_path cfg new [] = new ∷ []
insert_path cfg new (p ∷ ps) =
    if ltb_ℤ (comp_addr_origin cfg new p) (pos 0) then new ∷ p ∷ ps else p ∷ insert_path cfg new ps

-- `avl_insert` of a route entry.
unfoldable pub insert_entry : RtEntry → List RtEntry → List RtEntry
insert_entry new [] = new ∷ []
insert_entry new (e ∷ es) =
    if ltb_ℤ (comp_prefix new.dst e.dst) (pos 0) then new ∷ e ∷ es else e ∷ insert_entry new es

-- A path by its pointer, and a write through the pointer.
unfoldable pub find_path : ℕ → List RtPath → Option RtPath
find_path id [] = none
find_path id (p ∷ ps) = let rest = find_path id ps in if p.id == id then some p else rest

unfoldable pub write_path : ℕ → (RtPath → RtPath) → List RtPath → List RtPath
write_path id write [] = []
write_path id write (p ∷ ps) = if p.id == id then write p ∷ ps else p ∷ write_path id write ps

unfoldable pub remove_path : ℕ → List RtPath → List RtPath
remove_path id [] = []
remove_path id (p ∷ ps) = if p.id == id then ps else p ∷ remove_path id ps

-- `avl_find_element` on `routingtree`, and a write through the pointer that it gives.
unfoldable pub find_entry : ℕ → List RtEntry → Option RtEntry
find_entry dst [] = none
find_entry dst (e ∷ es) = let rest = find_entry dst es in if e.dst == dst then some e else rest

unfoldable pub write_entry : ℕ → (RtEntry → RtEntry) → List RtEntry → List RtEntry
write_entry dst write [] = []
write_entry dst write (e ∷ es) = if e.dst == dst then write e ∷ es else e ∷ write_entry dst write es

-- `rt_path_tree` of the route entry of a prefix.
unfoldable pub path_tree : ℕ → List RtPath → List RtPath
path_tree dst [] = []
path_tree dst (p ∷ ps) = if p.rtp_rt && p.dst == dst then p ∷ path_tree dst ps else path_tree dst ps

-- `olsr_bump_routingtree_version`.
unfoldable pub bump_routingtree_version : Rib → Rib
bump_routingtree_version rib = record rib { version = (rib.version + 1) % 2 ^ 32 }

-- `olsr_lookup_routing_table`.
unfoldable pub lookup_routing_table : RtConfig → ℕ → Rib → Option RtEntry
lookup_routing_table cfg dst rib = find_entry (dst * 256 + 8 * cfg.ipsize) rib.entries

-- What `olsr_update_rt_path` takes of a vertex and its link.
pub record Reached : Type 0 where
  pub path_cost : ℕ
  pub hops : ℕ
  pub link : Nexthop

-- `olsr_update_rt_path` without the locks of interfaces.
unfoldable pub update_rt_path : ℕ → Reached → RtPath → RtPath
update_rt_path version tc rtp = record rtp {
  version = version;
  nexthop = tc.link;
  hops = tc.hops;
  cost = tc.path_cost;
}

-- `olsr_alloc_rt_entry`.
abbrev pub alloc_rt_entry : ℕ → RtEntry
alloc_rt_entry prefix = record {
  dst = prefix;
  best = none;
  nexthop = record { gateway = 0; interface = none };
  cost = 0;
  hops = 0;
  failure_count = pos 0;
}

-- `olsr_alloc_rt_path`; the number is that of the memory that it gets.
abbrev pub alloc_rt_path : ℕ → ℕ → ℕ → ℕ → RtPath
alloc_rt_path id originator prefix origin = record {
  id = id;
  originator = originator;
  origin = origin;
  dst = prefix;
  rtp_rt = false;
  nexthop = record { gateway = 0; interface = none };
  cost = 0;
  hops = 0;
  version = 0;
}

-- Whether a pointer that may be NULL is that of an element.
abbrev pub is_at : Option ℕ → ℕ → Bool
is_at none id = false
is_at (some b) id = b == id

-- The cost of a path in `olsr_cmp_rtp`, less for the current internet gateway.
unfoldable pub nat_cost : RtConfig → Option ℕ → RtPath → ℕ
nat_cost cfg inetgw rtp =
    if not (is_at inetgw rtp.id)
    then rtp.cost
    else (if ltb rtp.cost ((2 ^ 31 - 1) / 1000)
        then rtp.cost * cfg.lq_nat_thresh % 2 ^ 32 / 1000
        else rtp.cost / 1000 * cfg.lq_nat_thresh % 2 ^ 32)

-- `olsr_cmp_rtp`. The last test is whether the addresses differ.
unfoldable pub cmp_rtp : RtConfig → Option ℕ → RtPath → RtPath → Bool
cmp_rtp cfg inetgw rtp1 rtp2 =
    let etx1 = nat_cost cfg inetgw rtp1 in
    let etx2 = nat_cost cfg inetgw rtp2 in
    if ltb etx1 etx2
    then true
    else if ltb etx2 etx1
    then false
    else if ltb rtp1.hops rtp2.hops
    then true
    else if ltb rtp2.hops rtp1.hops
    then false
    else if ltb rtp1.origin rtp2.origin
    then true
    else if ltb rtp2.origin rtp1.origin
    then false
    else not (rtp1.originator == rtp2.originator)

-- `olsr_cmp_rtp` where a pointer is NULL.
unfoldable pub cmp_rtp_opt : RtConfig → Option ℕ → Option RtPath → Option RtPath → Bool
cmp_rtp_opt cfg inetgw none rtp2 = false
cmp_rtp_opt cfg inetgw (some rtp1) none = true
cmp_rtp_opt cfg inetgw (some rtp1) (some rtp2) = cmp_rtp cfg inetgw rtp1 rtp2

abbrev pub deref : List RtPath → Option ℕ → Option RtPath
deref paths none = none
deref paths (some id) = find_path id paths

-- `olsr_cmp_rt`.
unfoldable pub cmp_rt : RtConfig → List RtPath → RtEntry → RtEntry → Bool
cmp_rt cfg paths rt1 rt2 = cmp_rtp_opt cfg none (deref paths rt1.best) (deref paths rt2.best)

-- The loop of `olsr_rt_best` from the best path that is known.
unfoldable pub best_loop : RtConfig → Option ℕ → Option RtPath → List RtPath → Option RtPath
best_loop cfg inetgw best [] = best
best_loop cfg inetgw best (rtp ∷ more) =
    best_loop cfg inetgw (if cmp_rtp_opt cfg inetgw (some rtp) best then some rtp else best) more

abbrev pub pointer : Option RtPath → Option ℕ
pointer none = none
pointer (some p) = some p.id

-- `olsr_rt_best` of an entry whose path tree is not empty: its best path, and the internet gateway.
unfoldable pub rt_best : RtConfig → Option ℕ → List RtPath → RtEntry → RtEntry × Option ℕ
rt_best cfg inetgw paths rt =
    let best = pointer (best_loop cfg inetgw (deref paths rt.best) (path_tree rt.dst paths)) in
    (record rt { best = best }, if prefix_len rt.dst == 0 then best else inetgw)
