-- ===== src/TcSet/Tests.antt =====
-- Runs of the link state database of src/tc_set.c, and the theorems at them.
use Prim.Native.Nat.{◌*◌}
use olsr.Prelude.{
  ℕ, ◌≡◌, ◌↔◌, ◌||◌, refl, inl, inr, Bool, true, false, not, ◌==◌, if◌then◌else◌, [], ◌∷◌, none,
  some, arith, Bool-cases, subst,
}
use olsr.Spf.Nodes.{mem}
use olsr.Packet.{Bytes, copy, pkt_get_ipaddress}
use olsr.TcSet.{
  TcEdge, TcEntry, TcSet, Config, lookup_edge, lookup_tc_edge, new_entry, add_tc_edge_entry,
  delete_tc_edge_entry, delete_outdated_tc_edges, delete_tc_entry, is_some, is_held,
  seqno_greater_than, insert_edge, remove_edge, update_edge, on_edges, connect, set_virtual,
  locate_tc_entry, add_tc_entry, internal_delete, on_entry,
}
use olsr.TcSet.Valid.{IsTcSet}
use olsr.TcSet.Delete.{Deleted, delete_tc_edge_entry_lem}
use olsr.TcSet.Pair.{with_pair, add_tc_edge_entry_lem}
use olsr.TcSet.Outdated.{Swept, delete_outdated_tc_edges_lem}
use olsr.TcSet.Vertex.{delete_tc_entry_lem}
use olsr.TcSet.Message.{Walk, update_edges, address, tc_update_edge, set_real, refresh_edge}
use olsr.TcSet.Keep.{reads_itself, update_edges_ends}
use olsr.TcSet.Border.{calculate_border, calculate_border_flag}
use olsr.TcSet.Between.{Between, calculate_border_flag-Between}

abbrev one_to_two : TcEdge
one_to_two = record {
  dest = 2;
  inverse = true;
  neighbor = none;
  cost = 10;
  common_cost = 10;
  virtual = false;
  ansn = 7;
  lq = 1;
}

abbrev two_to_one : TcEdge
two_to_one = record {
  dest = 1;
  inverse = true;
  neighbor = none;
  cost = 10;
  common_cost = 10;
  virtual = true;
  ansn = 0;
  lq = 1;
}

abbrev entry_nine : TcEntry
entry_nine = record new_entry { ansn = 9 }

-- Two vertices, 1 and 2; the edge from 1 to 2 was announced with an older set of edges.
abbrev two_vertices : TcSet
two_vertices = record {
  tc_tree = λ a. if a == 1 then some entry_nine else if a == 2 then some new_entry else none;
  edge_tree = λ a. if a == 1 then one_to_two ∷ [] else if a == 2 then two_to_one ∷ [] else [];
  changes_topology = false;
}

abbrev config : Config
config = record {
  router_id = 5;
  clear_lq = 0;
  calc_tc_cost = λ e. 4 * e.lq;
  lq_size = 1;
  deserialize_lq = λ bytes. 3;
  ipsize = 1;
  validate_address = λ a. not (a == 1);
}

two_vertices-IsTcSet : IsTcSet two_vertices
unfolding lookup_tc_edge lookup_edge is_some is_held mem
two_vertices-IsTcSet = record {
  unique = λ a. ground arith;
  paired = λ a b e h. elim (Bool-cases (a == 1)) [
    | inl at ↦ elim (Bool-cases (b == 2)) [
      | inl to ↦
          let now : one_to_two ≡ e = ground (arith, h, at, to) in
          (
            subst (λ z. z.inverse ≡ true) now refl,
            two_to_one,
            ground (arith, at, to),
            subst (λ z. (is_held z || is_held two_to_one) ≡ true) now refl,
          )
      | inr other ↦ absurd (ground (arith, h, at, other))
    ]
    | inr elsewhere ↦ elim (Bool-cases (a == 2)) [
      | inl at ↦ elim (Bool-cases (b == 1)) [
        | inl to ↦
            let now : two_to_one ≡ e = ground (arith, h, at, to) in
            (
              subst (λ z. z.inverse ≡ true) now refl,
              one_to_two,
              ground (arith, at, to),
              subst (λ z. (is_held z || is_held one_to_two) ≡ true) now refl,
            )
        | inr other ↦ absurd (ground (arith, h, at, other))
      ]
      | inr nowhere ↦ absurd (ground (arith, h, elsewhere, nowhere))
    ]
  ];
  loopless = λ a. ground arith;
  owned = λ a b e h. ground (arith, h);
}

-- The edge to 2 is outdated and its inverse edge virtual, so both go, and with them vertex 1.
delete_runs :
    (elim (delete_tc_entry 1 two_vertices) [ none ↦ none | some db ↦ some (db.edge_tree 2) ])
    ≡ some []
unfolding delete_tc_entry olsr.TcSet.delete_edges delete_tc_edge_entry lookup_tc_edge lookup_edge
    is_held is_some internal_delete on_edges remove_edge
delete_runs = refl

-- An edge from a vertex to itself is its own inverse edge; once it is virtual, deleting it takes it
-- out of the tree twice.
abbrev to_itself : TcSet
to_itself = record two_vertices {
  edge_tree = λ a. if a == 1 then record one_to_two { dest = 1; virtual = true } ∷ [] else [];
}

self_edge_runs : delete_tc_edge_entry 1 1 to_itself ≡ none
unfolding delete_tc_edge_entry lookup_tc_edge lookup_edge is_held is_some internal_delete on_edges
    remove_edge
self_edge_runs = refl

-- A border that the address does not have is a write outside of it.
border_runs : calculate_border 200 (10 ∷ 1 ∷ 2 ∷ 3 ∷ []) ≡ none
unfolding calculate_border
border_runs = refl

delete_tc_edge_entry_lem_example :
    (db' : TcSet) × (f : TcEdge) × (delete_tc_edge_entry 1 2 two_vertices ≡ some db')
    × (lookup_tc_edge two_vertices 2 1 ≡ some f)
    × Deleted 1 2 f two_vertices db'
unfolding lookup_tc_edge lookup_edge
delete_tc_edge_entry_lem_example =
    delete_tc_edge_entry_lem 1 2 one_to_two two_vertices two_vertices-IsTcSet refl

add_tc_edge_entry_lem_example :
    (db' : TcSet) × (add_tc_edge_entry 2 config 2 3 8 two_vertices ≡ some db')
    × ((a b : ℕ)
        → lookup_tc_edge db' a b ≡ with_pair config 2 3 8 a b (lookup_tc_edge two_vertices a b))
    × IsTcSet db'
unfolding lookup_tc_edge lookup_edge is_some
add_tc_edge_entry_lem_example =
    add_tc_edge_entry_lem config 2 3 8 two_vertices two_vertices-IsTcSet (omega arith) refl refl
      refl

delete_outdated_tc_edges_lem_example :
    (db' : TcSet) × (retval : Bool) × (delete_outdated_tc_edges 1 two_vertices ≡ some (db', retval))
    × ((b : ℕ)
        → Swept
            (λ e. seqno_greater_than 9 e.ansn)
            (lookup_tc_edge two_vertices 1 b)
            (lookup_tc_edge db' 1 b))
    × IsTcSet db'
delete_outdated_tc_edges_lem_example =
    delete_outdated_tc_edges_lem 1 entry_nine two_vertices two_vertices-IsTcSet refl

delete_tc_entry_lem_example :
    (db' : TcSet) × (delete_tc_entry 1 two_vertices ≡ some db')
    × ((b : ℕ) (e : TcEdge) → lookup_tc_edge db' 1 b ≡ some e → e.virtual ≡ true)
    × ((db'.tc_tree 1 ≡ none) ↔ (db'.edge_tree 1 ≡ []))
    × IsTcSet db'
delete_tc_entry_lem_example =
    delete_tc_entry_lem 1 entry_nine two_vertices two_vertices-IsTcSet refl

abbrev walk : Walk
walk = record {
  db = two_vertices;
  lower_border_ip = none;
  upper_border_ip = none;
  relevant_tc = false;
}

-- Two neighbors, 2 and 3, with one byte of link quality each.
abbrev edges : Bytes
edges = 2 ∷ 255 ∷ 3 ∷ 255 ∷ []

abbrev accepting : Config
accepting = record config { validate_address = λ a. not (a == 5) }

edges_have_no_one : reads_itself 5 accepting 1 9 edges two_vertices ≡ false
unfolding reads_itself pkt_get_ipaddress copy address tc_update_edge lookup_tc_edge lookup_edge
    set_real refresh_edge on_edges on_entry update_edge add_tc_edge_entry locate_tc_entry
    add_tc_entry connect set_virtual insert_edge is_some
edges_have_no_one = refl

update_edges_ends_example :
    (w' : Walk) × (update_edges 5 accepting 1 9 edges walk ≡ some w') × IsTcSet w'.db
unfolding is_some
update_edges_ends_example =
    update_edges_ends 5 accepting 1 9 edges walk (omega arith) (omega arith) (omega arith)
      edges_have_no_one two_vertices-IsTcSet refl

calculate_border_flag-Between_example :
    Between
      (calculate_border_flag (10 ∷ 1 ∷ 2 ∷ 3 ∷ []) (10 ∷ 1 ∷ 6 ∷ 1 ∷ []))
      (10 ∷ 1 ∷ 2 ∷ 3 ∷ [])
      (10 ∷ 1 ∷ 6 ∷ 1 ∷ [])
unfolding olsr.TcSet.Message.address
calculate_border_flag-Between_example =
    calculate_border_flag-Between (10 ∷ 1 ∷ 2 ∷ 3 ∷ []) (10 ∷ 1 ∷ 6 ∷ 1 ∷ []) (ground arith)
      (ground arith) refl (omega arith) (omega arith)
