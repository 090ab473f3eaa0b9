-- ===== src/Link/Tests.antt =====
-- Links and HELLOs, and the theorems there.
use olsr.Prelude.{
  ℕ, ◌+◌, ◌≤◌, ◌<◌, ◌≡◌, ◌⊎◌, refl, arith, leb, false, none, some, Option, List, [], ◌∷◌,
}
use olsr.Clock.{u32, is_past}
use olsr.Timer.{Env, TimerEntry}
use olsr.Link.{
  asym_link, sym_link, lost_link, LinkEntry, HelloNeighbor, is_sym_link, is_unspec_link,
  lookup_link_status, best_link_loop, get_best_link_to_neighbor, check_status_loop, LinkStatus,
  check_link_status, update_link, check_neighbor_link,
}
use olsr.Spf.{link_cost_broken}
use olsr.Link.Best.{LinkIn, IsSymTo, get_best_link_to_neighbor_lem}
use olsr.Link.Status.{HelloSays, status_after, update_link-lookup_link_status}

abbrev env : Env
env = record { now_times = 5000; rand_max = 2147483647; random = 5 }

abbrev timer : TimerEntry
timer = record {
  timer_clock = 9000;
  timer_period = 0;
  timer_jitter_pct = 0;
  timer_random = 1;
  periodic = false;
}

abbrev link : ℕ → ℕ → Option TimerEntry → LinkEntry
link address cost sym_timer = record {
  local_iface_addr = 1;
  neighbor_iface_addr = address;
  link_timer = some timer;
  link_sym_timer = sym_timer;
  asym_time = 8000;
  vtime = 3000;
  neighbor = 7;
  status = sym_link;
  is_mpr = false;
  linkcost = cost;
}

abbrev links : List LinkEntry
links = link 21 40 (some timer) ∷ link 22 30 (some timer) ∷ link 23 10 none ∷ []

-- The cheapest link is asymmetric.
best_of_links : get_best_link_to_neighbor 5000 links 7 ≡ some (link 22 30 (some timer))
unfolding get_best_link_to_neighbor best_link_loop lookup_link_status is_sym_link is_past
best_of_links = refl

third_is_asym : check_neighbor_link 5000 links 23 ≡ asym_link
unfolding check_neighbor_link lookup_link_status is_past
third_is_asym = refl

abbrev hello : List HelloNeighbor
hello =
    record { addr = 2; link_type = sym_link }
    ∷ record { addr = 1; link_type = lost_link }
    ∷ record { addr = 1; link_type = asym_link }
    ∷ []

hello_says : check_link_status 1 hello ≡ asym_link
unfolding check_link_status check_status_loop is_sym_link is_unspec_link
hello_says = refl

get_best_link_to_neighbor_lem_example :
    ((get_best_link_to_neighbor 5000 links 7 ≡ none)
      × ((l : LinkEntry) → LinkIn l links → IsSymTo 5000 7 l → link_cost_broken ≤ l.linkcost))
    ⊎ ((best : LinkEntry) × (get_best_link_to_neighbor 5000 links 7 ≡ some best)
        × LinkIn best links
        × IsSymTo 5000 7 best
        × (best.linkcost < link_cost_broken)
        × ((l : LinkEntry) → LinkIn l links → IsSymTo 5000 7 l → best.linkcost ≤ l.linkcost))
get_best_link_to_neighbor_lem_example = get_best_link_to_neighbor_lem 5000 links 7

update_link-lookup_link_status_example :
    (s : LinkStatus) × HelloSays 1 hello s
    × (lookup_link_status (u32 (5000 + 600)) (update_link env 6 7 3000 hello 1 (link 23 10 none))
        ≡ status_after s false (leb 3000 600))
update_link-lookup_link_status_example =
    update_link-lookup_link_status env 6 7 3000 1 600 hello (link 23 10 none) (omega arith)
      (omega arith) (omega arith) (omega arith)
