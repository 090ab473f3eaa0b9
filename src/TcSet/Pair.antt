-- ===== src/TcSet/Pair.antt =====
-- The pair of edges that `olsr_add_tc_edge_entry` of src/tc_set.c makes.
use olsr.Prelude.{
  ℕ, ◌≡◌, ◌≢◌, inl, inr, refl, sym, subst, ◌∙◌, ==_iff, true, false, ◌&&◌, ◌||◌, ◌==◌,
  if◌then◌else◌, List, [], ◌∷◌, Option, none, some, arith, Bool-cases, Option-cases,
}
use olsr.Spf.Nodes.{IsNodup}
use olsr.TcSet.{
  TcEdge, TcSet, Config, lookup_edge, update_edge, on_edges, lookup_tc_edge, connect, set_virtual,
  new_edge, add_tc_edge_entry, is_some, is_held,
}
use olsr.TcSet.Edges.{dests}
use olsr.TcSet.Valid.{
  IsTcSet, lookup_tc_edge-insert_edge, on_edges-IsNodup, update_edge-IsNodup, and_split,
}
use olsr.TcSet.Delete.{lookup_tc_edge-set_virtual}
use olsr.TcSet.Add.{
  IsTidy, insert, insert-IsTidy, locate_tc_entry_lem, linked, real, lookup_tc_edge-connect,
}

-- The edge that is added, and its inverse edge.
abbrev pub added : Config → ℕ → ℕ → TcEdge
added cfg addr ansn = real cfg.calc_tc_cost (linked (new_edge addr ansn cfg.clear_lq))

abbrev pub added_inverse : Config → ℕ → TcEdge
added_inverse cfg tc =
    let e = real cfg.calc_tc_cost (new_edge tc 0 cfg.clear_lq) in
    linked (record e { virtual = true })

-- All edges afterwards.
abbrev pub with_pair : Config → ℕ → ℕ → ℕ → ℕ → ℕ → Option TcEdge → Option TcEdge
with_pair cfg tc addr ansn a b old =
    if a == tc && addr == b
    then some (added cfg addr ansn)
    else if a == addr && tc == b
    then some (added_inverse cfg tc)
    else old

-- A valid database stays valid when a pair of edges joins it.
with_pair-IsTcSet :
    (cfg : Config) (tc addr ansn : ℕ) (db db' : TcSet)
    → IsTcSet db
    → (tc == addr) ≡ false
    → ((a : ℕ) → IsNodup (dests (db'.edge_tree a)))
    → ((a b : ℕ) → lookup_tc_edge db' a b ≡ with_pair cfg tc addr ansn a b (lookup_tc_edge db a b))
    → is_some (db'.tc_tree tc) ≡ true
    → is_some (db'.tc_tree addr) ≡ true
    → ((a : ℕ) → is_some (db.tc_tree a) ≡ true → is_some (db'.tc_tree a) ≡ true)
    → IsTcSet db'
unfolding is_held
with_pair-IsTcSet cfg tc addr ansn db db' v apart unique look here there keeps = record {
  unique = unique;
  loopless = λ a. ground (arith, look a a, v.loopless a, apart);
  paired = λ a b e h. elim (Bool-cases (a == tc && addr == b)) [
    | inl hit ↦
        let (at, to) = and_split (a == tc) (addr == b) hit in
        let now : added cfg addr ansn ≡ e = ground (arith, look a b, hit, h) in
        (
          subst (λ z. z.inverse ≡ true) now refl,
          added_inverse cfg tc,
          ground (arith, look b a, at, to, apart),
          subst (λ z. (is_held z || is_held (added_inverse cfg tc)) ≡ true) now refl,
        )
    | inr miss ↦ elim (Bool-cases (a == addr && tc == b)) [
      | inl hit ↦
          let (at, to) = and_split (a == addr) (tc == b) hit in
          let now : added_inverse cfg tc ≡ e = ground (arith, look a b, miss, hit, h) in
          (
            subst (λ z. z.inverse ≡ true) now refl,
            added cfg addr ansn,
            ground (arith, look b a, at, to),
            subst (λ z. (is_held z || is_held (added cfg addr ansn)) ≡ true) now (ground arith),
          )
      | inr away ↦
          let (inverse, f, back, either) =
            v.paired a b e (ground (arith, look a b, miss, away, h)) in
          (inverse, f, ground (arith, look b a, miss, away, back), either)
    ]
  ];
  owned = λ a b e h. elim (Bool-cases (a == tc && addr == b)) [
    | inl hit ↦
        subst (λ x. is_some (db'.tc_tree x) ≡ true)
          (sym ((==_iff a tc).0 (and_split (a == tc) (addr == b) hit).0)) here
    | inr miss ↦ elim (Bool-cases (a == addr && tc == b)) [
      | inl hit ↦
          subst (λ x. is_some (db'.tc_tree x) ≡ true)
            (sym ((==_iff a addr).0 (and_split (a == addr) (tc == b) hit).0)) there
      | inr away ↦ keeps a (v.owned a b e (ground (arith, look a b, miss, away, h)))
    ]
  ];
}

module _ (cfg : Config) (tc addr ansn : ℕ) (db d2 d4 : TcSet) (apart : (tc == addr) ≡ false)
    (absent : lookup_tc_edge db tc addr ≡ none) (absent_inv : lookup_tc_edge db addr tc ≡ none)
    (same2 : (a b : ℕ)
      → lookup_tc_edge d2 a b ≡ lookup_tc_edge (insert tc (new_edge addr ansn cfg.clear_lq) db) a b)
    (same4 : (a b : ℕ)
      → lookup_tc_edge d4 a b
        ≡ lookup_tc_edge (insert addr (new_edge tc 0 cfg.clear_lq) d2) a b) where
  lookup2 :
      (a b : ℕ)
      → lookup_tc_edge d2 a b ≡ (
          if a == tc && addr == b
          then some (new_edge addr ansn cfg.clear_lq)
          else lookup_tc_edge db a b)
  lookup2 a b =
      same2 a b ∙ lookup_tc_edge-insert_edge tc (new_edge addr ansn cfg.clear_lq) db a b absent

  lookup4 :
      (a b : ℕ)
      → lookup_tc_edge d4 a b ≡ (
          if a == addr && tc == b then some (new_edge tc 0 cfg.clear_lq) else lookup_tc_edge d2 a b)
  lookup4 a b =
      same4 a b
      ∙ lookup_tc_edge-insert_edge addr (new_edge tc 0 cfg.clear_lq) d2 a b
          (ground (arith, lookup2 addr tc, absent_inv, apart))

  abbrev finished : TcSet
  finished =
      connect cfg.calc_tc_cost tc addr (set_virtual addr tc (connect cfg.calc_tc_cost addr tc d4))

  lookup_finished :
      (a b : ℕ)
      → lookup_tc_edge finished a b ≡ with_pair cfg tc addr ansn a b (lookup_tc_edge db a b)
  lookup_finished a b = ground (
    arith,
    apart,
    lookup_tc_edge-connect cfg.calc_tc_cost tc addr
        (set_virtual addr tc (connect cfg.calc_tc_cost addr tc d4)) a b,
    lookup_tc_edge-set_virtual addr tc (connect cfg.calc_tc_cost addr tc d4) a b,
    lookup_tc_edge-connect cfg.calc_tc_cost addr tc d4 a b,
    lookup4 a b,
    lookup2 a b,
  )

finished-IsNodup :
    (calc : TcEdge → ℕ) (tc addr : ℕ) (db : TcSet) (a : ℕ)
    → ((x : ℕ) → IsNodup (dests (db.edge_tree x)))
    → IsNodup (dests ((connect calc tc addr db).edge_tree a))
unfolding connect
finished-IsNodup calc tc addr db a n =
    let inner = λ (x : ℕ).
      on_edges-IsNodup addr (update_edge tc linked) db x
        (λ es eq. update_edge-IsNodup tc linked es (λ e. refl) (rw eq (n addr))) (n x) in
    on_edges-IsNodup tc (update_edge addr (real calc)) (on_edges addr (update_edge tc linked) db) a
      (λ es eq. update_edge-IsNodup addr (real calc) es (λ e. refl) (rw eq (inner tc))) (inner a)

-- Without an edge in one direction there is none in the other.
lookup_tc_edge_back :
    (db : TcSet) (a b : ℕ)
    → IsTcSet db
    → lookup_tc_edge db a b ≡ none
    → lookup_tc_edge db b a ≡ none
lookup_tc_edge_back db a b v absent = elim (Option-cases (lookup_tc_edge db b a)) [
  | inl none_back ↦ none_back
  | inr (e, there) ↦
      let (linked, f, back, either) = v.paired b a e there in absurd (ground (arith, back, absent))
]

lookups_empty : (es : List TcEdge) → ((b : ℕ) → lookup_edge b es ≡ none) → es ≡ []
unfolding lookup_edge
lookups_empty [] h = refl
lookups_empty (e ∷ es) h = ground (arith, h e.dest)

IsTidy-IsTcSet : (db : TcSet) → IsTcSet db → IsTidy db
unfolding lookup_tc_edge is_some
IsTidy-IsTcSet db v = (
  v.unique,
  (λ a h. lookups_empty (db.edge_tree a) (λ b. elim (Option-cases (lookup_tc_edge db a b)) [
    | inl absent ↦ absent
    | inr (e, there) ↦ absurd (ground (arith, v.owned a b e there, h))
  ])),
)

-- Adding an edge between two vertices of a valid database that have none goes through, where this
-- node has a main address, with two levels of the recursion: the edge is there and real, its inverse
-- edge is there and virtual, also where the edge points to this node, all other edges stay as they
-- were, and the database stays valid.
pub add_tc_edge_entry_lem :
    (cfg : Config) (tc addr ansn : ℕ) (db : TcSet)
    → IsTcSet db
    → cfg.router_id ≢ 0
    → is_some (db.tc_tree tc) ≡ true
    → (tc == addr) ≡ false
    → lookup_tc_edge db tc addr ≡ none
    → (db' : TcSet) × (add_tc_edge_entry 2 cfg tc addr ansn db ≡ some db')
      × ((a b : ℕ)
          → lookup_tc_edge db' a b ≡ with_pair cfg tc addr ansn a b (lookup_tc_edge db a b))
      × IsTcSet db'
unfolding add_tc_edge_entry connect set_virtual on_edges
add_tc_edge_entry_lem cfg tc addr ansn db v id here apart absent =
    let new = new_edge addr ansn cfg.clear_lq in
    let new_inv = new_edge tc 0 cfg.clear_lq in
    let absent_inv = lookup_tc_edge_back db tc addr v absent in
    let tidy = IsTidy-IsTcSet db v in
    let (d2, run2, tidy2, same2, there2, keeps2) =
      locate_tc_entry_lem cfg.router_id addr (insert tc new db)
        (insert-IsTidy tc new db tidy here absent) id in
    let absent2 : lookup_tc_edge d2 addr tc ≡ none = ground (
      arith,
      same2 addr tc,
      lookup_tc_edge-insert_edge tc new db addr tc absent,
      absent_inv,
      apart,
    ) in
    let (d4, run4, tidy4, same4, there4, keeps4) =
      locate_tc_entry_lem cfg.router_id tc (insert addr new_inv d2)
        (insert-IsTidy addr new_inv d2 tidy2 there2 absent2) id in
    let look = lookup_finished cfg tc addr ansn db d2 d4 apart absent absent_inv same2 same4 in
    let forward = lookup4 cfg tc addr ansn db d2 d4 apart absent absent_inv same2 same4 tc addr in
    let forward2 = lookup2 cfg tc addr ansn db d2 d4 apart absent absent_inv same2 same4 tc addr in
    let there4' : lookup_tc_edge d4 tc addr ≡ some new = ground (arith, forward, forward2, apart) in
    let unique = λ (a : ℕ).
      finished-IsNodup cfg.calc_tc_cost tc addr
        (set_virtual addr tc (connect cfg.calc_tc_cost addr tc d4)) a
        (λ x.
          on_edges-IsNodup addr (update_edge tc (λ e. record e { virtual = true }))
            (connect cfg.calc_tc_cost addr tc d4) x
            (λ es eq.
              update_edge-IsNodup tc (λ e. record e { virtual = true }) es (λ e. refl)
                (rw eq (finished-IsNodup cfg.calc_tc_cost addr tc d4 addr tidy4.0)))
            (finished-IsNodup cfg.calc_tc_cost addr tc d4 x tidy4.0)) in
    (
      finished cfg tc addr ansn db d2 d4 apart absent absent_inv same2 same4,
      rw (run2, absent2, run4, there4', add_tc_edge_entry) refl,
      look,
      with_pair-IsTcSet cfg tc addr ansn db _ v apart unique look there4 (keeps4 addr there2)
          (λ a h. keeps4 a (keeps2 a h)),
    )
