-- ===== src/Link.antt =====
-- link_set.c: the links of this node, their status and their timers. A neighbor entry and an
-- interface go by numbers.
pub mod Status
pub mod Best
mod Tests
use olsr.Prelude.{
  ℕ, ◌+◌, ◌*◌, ◌-◌, ◌^◌, ltb, ◌==◌, if◌then◌else◌, Bool, true, false, not, ◌&&◌, ◌||◌, Option, none,
  some, List, [], ◌∷◌,
}
use olsr.Prelude.Int.{ℤ, pos, negsuc}
use olsr.Clock.{u32, is_past, get_absolute, get_relative}
use olsr.Timer.{Env, TimerEntry, set}
use olsr.Spf.{link_cost_broken}

pub data LinkStatus : Type 0 where
  unspec_link : LinkStatus
  asym_link : LinkStatus
  sym_link : LinkStatus
  lost_link : LinkStatus

-- `struct link_entry`, less the interface, `is_mprs`, the packet loss fields and the cached HELLO
-- status.
pub record LinkEntry : Type 0 where
  pub local_iface_addr : ℕ
  pub neighbor_iface_addr : ℕ
  pub link_timer : Option TimerEntry
  pub link_sym_timer : Option TimerEntry
  pub asym_time : ℕ
  pub vtime : ℕ
  pub neighbor : ℕ
  pub status : LinkStatus
  pub is_mpr : Bool
  pub linkcost : ℕ

abbrev pub is_some {ℓ} : {A : Type ℓ} → Option A → Bool
is_some none = false
is_some (some a) = true

-- `lookup_link_status` of an entry of the list, which is then not empty.
unfoldable pub lookup_link_status : ℕ → LinkEntry → LinkStatus
lookup_link_status now_times entry =
    if is_some entry.link_sym_timer
    then sym_link
    else (if not (is_past now_times entry.asym_time) then asym_link else lost_link)

unfoldable pub is_sym_link : LinkStatus → Bool
is_sym_link unspec_link = false
is_sym_link asym_link = false
is_sym_link sym_link = true
is_sym_link lost_link = false

-- The loop of `get_best_link_to_neighbor`.
unfoldable pub best_link_loop : ℕ → ℕ → List LinkEntry → ℕ → Option LinkEntry → Option LinkEntry
best_link_loop now_times nbr [] curr_lcost good_link = good_link
best_link_loop now_times nbr (walker ∷ links) curr_lcost good_link =
    let better = best_link_loop now_times nbr links walker.linkcost (some walker) in
    let same = best_link_loop now_times nbr links curr_lcost good_link in
    if not (walker.neighbor == nbr) || not (is_sym_link (lookup_link_status now_times walker))
    then same
    else (if ltb walker.linkcost curr_lcost then better else same)

unfoldable pub get_best_link_to_neighbor : ℕ → List LinkEntry → ℕ → Option LinkEntry
get_best_link_to_neighbor now_times links nbr =
    best_link_loop now_times nbr links link_cost_broken none

unfoldable pub check_neighbor_link : ℕ → List LinkEntry → ℕ → LinkStatus
check_neighbor_link now_times [] int_addr = unspec_link
check_neighbor_link now_times (link ∷ links) int_addr =
    if int_addr == link.neighbor_iface_addr
    then lookup_link_status now_times link
    else check_neighbor_link now_times links int_addr

-- An entry of the neighbor list of a HELLO: `struct lq_hello_neighbor`.
pub record HelloNeighbor : Type 0 where
  pub addr : ℕ
  pub link_type : LinkStatus

unfoldable pub is_unspec_link : LinkStatus → Bool
is_unspec_link unspec_link = true
is_unspec_link asym_link = false
is_unspec_link sym_link = false
is_unspec_link lost_link = false

-- The loop of `check_link_status`, over the neighbors of the HELLO.
unfoldable pub check_status_loop : ℕ → List HelloNeighbor → LinkStatus → LinkStatus
check_status_loop ip_addr [] ret = ret
check_status_loop ip_addr (n ∷ neighbors) ret =
    let found = check_status_loop ip_addr neighbors n.link_type in
    let same = check_status_loop ip_addr neighbors ret in
    if n.addr == ip_addr && not (is_unspec_link n.link_type)
    then (if is_sym_link n.link_type then sym_link else found)
    else same

unfoldable pub check_link_status : ℕ → List HelloNeighbor → LinkStatus
check_link_status ip_addr neighbors = check_status_loop ip_addr neighbors unspec_link

abbrev pub neighb_hold_time : ℕ
neighb_hold_time = 10 * 2000

-- `(unsigned int)` of an `int32_t`.
unfoldable pub unsigned : ℤ → ℕ
unsigned (pos n) = n
unsigned (negsuc n) = 2 ^ 32 - (n + 1)

-- The `switch` of `update_link_entry`. `random` is what the second timer would draw.
unfoldable pub set_status : Env → ℕ → ℕ → LinkStatus → LinkEntry → LinkEntry
set_status env random vtime unspec_link entry = record entry { status = unspec_link }
set_status env random vtime lost_link entry = record entry {
  status = lost_link;
  link_sym_timer = none;
}
set_status env random vtime sym_link entry = record entry {
  status = sym_link;
  link_sym_timer = set env vtime 0 false entry.link_sym_timer;
  link_timer =
      set (record env { random = random }) (u32 (vtime + neighb_hold_time)) 5 false
        entry.link_timer;
}
set_status env random vtime asym_link entry = record entry {
  status = asym_link;
  link_sym_timer = set env vtime 0 false entry.link_sym_timer;
  link_timer =
      set (record env { random = random }) (u32 (vtime + neighb_hold_time)) 5 false
        entry.link_timer;
}

-- The end of `update_link_entry`: the link lives no shorter than until `ASYM_time`.
unfoldable pub stretch : Env → LinkEntry → LinkEntry
stretch env entry = elim entry.link_timer [
  | none ↦ entry
  | some t ↦
      if ltb t.timer_clock entry.asym_time
      then (record entry {
        link_timer =
            set env (unsigned (get_relative env.now_times entry.asym_time)) 5 false
              entry.link_timer;
      })
      else entry
]

-- `update_link_entry` on the entry that `add_link_entry` gives, up to the update of the neighbor.
-- A timer that has to be started draws the next of the random values.
unfoldable pub update_link : Env → ℕ → ℕ → ℕ → List HelloNeighbor → ℕ → LinkEntry → LinkEntry
update_link env random random' vtime neighbors ip_addr entry =
    let dated = record entry { vtime = vtime; asym_time = get_absolute env.now_times vtime } in
    stretch (record env { random = random' })
      (set_status env random vtime (check_link_status ip_addr neighbors) dated)

-- `olsr_expire_link_sym_timer` up to the update of the neighbor: whether that is reached, too.
unfoldable pub expire_link_sym_timer : ℕ → LinkEntry → LinkEntry × Bool
expire_link_sym_timer now_times link =
    let stopped = record link { link_sym_timer = none } in
    if is_sym_link link.status
    then (record stopped { status = lookup_link_status now_times stopped }, true)
    else (stopped, false)
