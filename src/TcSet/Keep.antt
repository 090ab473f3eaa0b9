-- ===== src/TcSet/Keep.antt =====
-- The edges of a TC message keep the link state database of src/tc_set.c valid, and the loop over
-- them ends.
use olsr.Prelude.{
  ℕ, zero, suc, ◌+◌, ◌≤◌, ◌<◌, ◌≡◌, ◌≢◌, inl, inr, refl, subst, sym, ◌∙◌, Bool, true, false, ◌||◌,
  ◌==◌, leb, length, Option, none, some, arith, Bool-cases, Option-cases,
}
use olsr.Packet.{Bytes, copy, pkt_get_ipaddress}
use olsr.Packet.Fields.{copy_lem}
use olsr.TcSet.{
  TcEdge, TcEntry, TcSet, Config, on_edges, on_entry, update_edge, lookup_tc_edge, is_some, is_held,
}
use olsr.TcSet.Valid.{IsTcSet, update_edge-IsTcSet}
use olsr.TcSet.Vertex.{tc_tree-IsTcSet, on_entry-some}
use olsr.TcSet.Pair.{added, add_tc_edge_entry_lem}
use olsr.TcSet.Message.{address, Update, set_real, refresh_edge, tc_update_edge, Walk, update_edges}

-- A write that leaves alone what the invariant is about.
abbrev IsQuiet : (TcEdge → TcEdge) → Type 0
IsQuiet write =
    (e : TcEdge)
    → ((write e).dest ≡ e.dest) × ((write e).inverse ≡ e.inverse) × (is_held (write e) ≡ is_held e)

quiet-IsTcSet :
    (tc dest : ℕ) (write : TcEdge → TcEdge) (db : TcSet)
    → IsQuiet write
    → IsTcSet db
    → IsTcSet (on_edges tc (update_edge dest write) db)
quiet-IsTcSet tc dest write db quiet v =
    update_edge-IsTcSet tc dest write db v (λ e. (quiet e).0) (λ e h. (quiet e).1 ∙ h)
      (λ e f there back.
        let (linked, g, back', either) = v.paired tc dest e there in
        let same : g ≡ f = ground (arith, back, back') in
        rw (quiet e).2 (subst (λ z. (is_held e || is_held z) ≡ true) same either))

pub on_entry-IsTcSet :
    (tc : ℕ) (write : TcEntry → TcEntry) (db : TcSet) → IsTcSet db → IsTcSet (on_entry tc write db)
unfolding on_entry
on_entry-IsTcSet tc write db v =
    tc_tree-IsTcSet (on_entry tc write db).tc_tree db v
      (λ a b e h. on_entry-some tc write db a ∙ v.owned a b e h)

set_real-IsTcSet : (tc dest : ℕ) (db : TcSet) → IsTcSet db → IsTcSet (set_real tc dest db)
unfolding set_real is_held
set_real-IsTcSet tc dest db v =
    on_entry-IsTcSet tc (λ t. record t { virtual = false })
      (on_edges tc (update_edge dest (λ e. record e { virtual = false })) db)
      (update_edge-IsTcSet tc dest (λ e. record e { virtual = false }) db v (λ e. refl) (λ e h. h)
        (λ e f there back. refl))

set_real-some :
    (tc dest : ℕ) (db : TcSet) (a : ℕ)
    → is_some ((set_real tc dest db).tc_tree a) ≡ is_some (db.tc_tree a)
unfolding set_real on_edges
set_real-some tc dest db a =
    on_entry-some tc (λ t. record t { virtual = false })
      (on_edges tc (update_edge dest (λ e. record e { virtual = false })) db) a

refresh_edge-IsTcSet :
    (cfg : Config) (tc dest ansn lq : ℕ) (edge : TcEdge) (db : TcSet)
    → IsTcSet db
    → IsTcSet (refresh_edge cfg tc dest ansn lq edge db)
unfolding refresh_edge is_held
refresh_edge-IsTcSet cfg tc dest ansn lq edge db v =
    let cost = cfg.calc_tc_cost (record edge { ansn = ansn; lq = lq }) in
    quiet-IsTcSet dest tc (λ e. record e { common_cost = cost })
      (on_edges tc
        (update_edge dest (λ e. record e { ansn = ansn; lq = lq; cost = cost; common_cost = cost }))
        db)
      (λ e. (refl, refl, refl))
      (quiet-IsTcSet tc dest
        (λ e. record e { ansn = ansn; lq = lq; cost = cost; common_cost = cost }) db
        (λ e. (refl, refl, refl)) v)

-- What one edge of the message gives.
abbrev Kept : Config → ℕ → Bytes → Option Update → Type 0
Kept cfg tc curr o =
    (u : Update) × (o ≡ some u)
    × IsTcSet u.db
    × (is_some (u.db.tc_tree tc) ≡ true)
    × (length u.curr + cfg.ipsize ≤ length curr)

update_known :
    (cfg : Config) (tc ansn : ℕ) (curr neighbor rest bytes next : Bytes) (edge : TcEdge)
    (db : TcSet)
    → IsTcSet db
    → is_some (db.tc_tree tc) ≡ true
    → copy cfg.ipsize curr ≡ some (neighbor, rest)
    → copy cfg.lq_size rest ≡ some (bytes, next)
    → length next + cfg.ipsize ≤ length curr
    → lookup_tc_edge db tc (address neighbor) ≡ some edge
    → Kept cfg tc curr (tc_update_edge cfg tc ansn curr db)
unfolding tc_update_edge pkt_get_ipaddress refresh_edge on_edges
update_known cfg tc ansn curr neighbor rest bytes next edge db v here run run2 len there =
    let dest = address neighbor in
    let fresh = refresh_edge cfg tc dest ansn (cfg.deserialize_lq bytes) edge db in
    (
      record { db = set_real tc dest fresh; curr = next; neighbor = neighbor; edge_change = true },
      rw (run, there, run2, tc_update_edge) refl,
      set_real-IsTcSet tc dest fresh
          (refresh_edge-IsTcSet cfg tc dest ansn (cfg.deserialize_lq bytes) edge db v),
      set_real-some tc dest fresh tc ∙ here,
      len,
    )

update_new :
    (cfg : Config) (tc ansn : ℕ) (curr neighbor rest bytes next : Bytes) (db : TcSet)
    → cfg.router_id ≢ 0
    → (tc == address neighbor) ≡ false
    → IsTcSet db
    → is_some (db.tc_tree tc) ≡ true
    → copy cfg.ipsize curr ≡ some (neighbor, rest)
    → copy cfg.lq_size rest ≡ some (bytes, next)
    → length next + cfg.ipsize ≤ length curr
    → lookup_tc_edge db tc (address neighbor) ≡ none
    → cfg.validate_address (address neighbor) ≡ true
    → Kept cfg tc curr (tc_update_edge cfg tc ansn curr db)
unfolding tc_update_edge pkt_get_ipaddress on_edges is_held
update_new cfg tc ansn curr neighbor rest bytes next db id apart v here run run2 len absent
      accepted =
    let dest = address neighbor in
    let (db', run3, look, v') = add_tc_edge_entry_lem cfg tc dest ansn db v id here apart absent in
    let write = λ (e : TcEdge). record e { lq = cfg.deserialize_lq bytes } in
    let there : lookup_tc_edge db' tc dest ≡ some (added cfg dest ansn) =
      ground (arith, look tc dest) in
    let stored = on_edges tc (update_edge dest write) db' in
    (
      record { db = set_real tc dest stored; curr = next; neighbor = neighbor; edge_change = true },
      rw (run, absent, accepted, run3, run2, tc_update_edge) refl,
      set_real-IsTcSet tc dest stored
          (quiet-IsTcSet tc dest write db' (λ e. (refl, refl, refl)) v'),
      set_real-some tc dest stored tc ∙ v'.owned tc dest (added cfg dest ansn) there,
      len,
    )

tc_update_edge_lem :
    (cfg : Config) (tc ansn : ℕ) (curr : Bytes) (db : TcSet)
    → cfg.router_id ≢ 0
    → ((neighbor rest : Bytes)
        → copy cfg.ipsize curr ≡ some (neighbor, rest)
        → (tc == address neighbor) ≡ false)
    → IsTcSet db
    → is_some (db.tc_tree tc) ≡ true
    → cfg.ipsize + cfg.lq_size ≤ length curr
    → Kept cfg tc curr (tc_update_edge cfg tc ansn curr db)
unfolding tc_update_edge pkt_get_ipaddress
tc_update_edge_lem cfg tc ansn curr db id other v here room =
    let (neighbor, rest, run, len) = copy_lem cfg.ipsize curr (omega arith) in
    let (bytes, next, run2, len2) = copy_lem cfg.lq_size rest (omega arith) in
    elim (Option-cases (lookup_tc_edge db tc (address neighbor))) [
      | inr (edge, there) ↦
          update_known cfg tc ansn curr neighbor rest bytes next edge db v here run run2
            (omega arith) there
      | inl absent ↦ elim (Bool-cases (cfg.validate_address (address neighbor))) [
        | inl accepted ↦
            update_new cfg tc ansn curr neighbor rest bytes next db id (other neighbor rest run) v
              here run run2 (omega arith) absent accepted
        | inr rejected ↦ (
          record { db = db; curr = rest; neighbor = neighbor; edge_change = false },
          rw (run, absent, rejected, tc_update_edge) refl,
          v,
          here,
          omega arith,
        )
      ]
    ]

-- Whether the loop over the edges of a message reads the address of the originator.
unfoldable pub reads_itself : ℕ → Config → ℕ → ℕ → Bytes → TcSet → Bool
reads_itself zero cfg tc ansn curr db = false
reads_itself (suc fuel) cfg tc ansn curr db = elim (leb (cfg.ipsize + cfg.lq_size) (length curr)) [
  | false ↦ false
  | true ↦ elim (pkt_get_ipaddress cfg.ipsize curr) [
    | none ↦ false
    | some (neighbor, rest) ↦ tc == address neighbor || (elim (tc_update_edge cfg tc ansn curr db) [
      | none ↦ false
      | some u ↦ reads_itself fuel cfg tc ansn u.curr u.db
    ])
  ]
]

reads_itself_step :
    (fuel : ℕ) (cfg : Config) (tc ansn : ℕ) (curr neighbor rest : Bytes) (db : TcSet)
    → leb (cfg.ipsize + cfg.lq_size) (length curr) ≡ true
    → copy cfg.ipsize curr ≡ some (neighbor, rest)
    → reads_itself (suc fuel) cfg tc ansn curr db ≡ (
        tc == address neighbor || (elim (tc_update_edge cfg tc ansn curr db) [
          | none ↦ false
          | some u ↦ reads_itself fuel cfg tc ansn u.curr u.db
        ]))
unfolding reads_itself pkt_get_ipaddress
reads_itself_step fuel cfg tc ansn curr neighbor rest db room run =
    rw (room, run, reads_itself) refl

reads_itself_later :
    (fuel : ℕ) (cfg : Config) (tc ansn : ℕ) (curr neighbor rest : Bytes) (db : TcSet) (u : Update)
    → leb (cfg.ipsize + cfg.lq_size) (length curr) ≡ true
    → copy cfg.ipsize curr ≡ some (neighbor, rest)
    → tc_update_edge cfg tc ansn curr db ≡ some u
    → reads_itself (suc fuel) cfg tc ansn curr db ≡ false
    → reads_itself fuel cfg tc ansn u.curr u.db ≡ false
reads_itself_later fuel cfg tc ansn curr neighbor rest db u room run updated h =
    let both = sym (reads_itself_step fuel cfg tc ansn curr neighbor rest db room run) ∙ h in
    ground (arith, both, updated)

-- The loop over the edges of a TC message ends on a valid database and keeps it valid, with more fuel
-- than the message has bytes, where the originator is a vertex whose own address the loop does not
-- read, this node has a main address, and addresses have at least one byte.
pub update_edges_ends :
    (fuel : ℕ) (cfg : Config) (tc ansn : ℕ) (curr : Bytes) (w : Walk)
    → length curr < fuel
    → 1 ≤ cfg.ipsize
    → cfg.router_id ≢ 0
    → reads_itself fuel cfg tc ansn curr w.db ≡ false
    → IsTcSet w.db
    → is_some (w.db.tc_tree tc) ≡ true
    → (w' : Walk) × (update_edges fuel cfg tc ansn curr w ≡ some w') × IsTcSet w'.db
unfolding update_edges
update_edges_ends zero cfg tc ansn curr w more size id other v here = absurd (omega arith)
update_edges_ends (suc fuel) cfg tc ansn curr w more size id other v here =
    elim (Bool-cases (leb (cfg.ipsize + cfg.lq_size) (length curr))) [
      | inr done ↦ (w, rw (done, update_edges) refl, v)
      | inl room ↦
          let (neighbor, rest, copied, left) = copy_lem cfg.ipsize curr (ground (arith, room)) in
          let apart : (neighbor rest : Bytes)
              → copy cfg.ipsize curr ≡ some (neighbor, rest)
              → (tc == address neighbor) ≡ false =
            λ neighbor rest run.
              let both =
                sym (reads_itself_step fuel cfg tc ansn curr neighbor rest w.db room run) ∙ other in
              ground (arith, both) in
          let (u, run, v', here', len) =
            tc_update_edge_lem cfg tc ansn curr w.db id apart v here (ground (arith, room)) in
          let (w', ended, valid) =
            update_edges_ends fuel cfg tc ansn u.curr
              (record {
                db = u.db;
                lower_border_ip = elim w.lower_border_ip [
                  | none ↦ some u.neighbor
                  | some ip ↦ some ip
                ];
                upper_border_ip = some u.neighbor;
                relevant_tc = u.edge_change || w.relevant_tc;
              })
              (omega arith) size id
              (reads_itself_later fuel cfg tc ansn curr neighbor rest w.db u room copied run other)
              v' here' in
          (w', rw (room, run, update_edges) ended, valid)
    ]
