-- ===== src/TcSet.antt =====
-- The link state database of src/tc_set.c: vertices, and the edges that hang off them. Edges come in
-- pairs, one in each direction; an edge that only its inverse asks for is virtual.
pub mod Edges
pub mod Valid
pub mod Delete
pub mod Add
pub mod Pair
pub mod Outdated
pub mod Vertex
pub mod Message
pub mod Border
pub mod Input
pub mod Keep
mod Byte
pub mod Between
mod Tests
use Prim.Native.Nat.{compare, Ordering}
use Prim.Native.Nat.Ordering.{lt}
use olsr.Prelude.{
  ℕ, zero, suc, ◌-◌, ◌/◌, Bool, true, false, not, ◌&&◌, ◌||◌, ◌==◌, ltb, leb, if◌then◌else◌, List,
  [], ◌∷◌, map, Option, none, some,
}
use olsr.Prelude.Int.{ℤ, negsuc}
use olsr.Timer.{TimerEntry}

-- `struct tc_edge_entry`. The address `dest` is the key; whom the edge hangs off is where it is
-- found. `inverse` tells whether the pointer to the inverse edge is set, which is the edge between
-- the same two nodes in the other direction. `lq` is what the link quality plugin keeps.
pub record TcEdge : Type 0 where
  pub dest : ℕ
  pub inverse : Bool
  pub neighbor : Option ℕ
  pub cost : ℕ
  pub common_cost : ℕ
  pub virtual : Bool
  pub ansn : ℕ
  pub lq : ℕ

-- `struct tc_entry` without its trees; `tc_seq` is -1 before the first message.
pub record TcEntry : Type 0 where
  pub virtual : Bool
  pub tc_seq : ℤ
  pub msg_hops : ℕ
  pub ansn : ℕ
  pub edge_gc_timer : Option TimerEntry
  pub validity_timer : Option TimerEntry

-- `tc_tree`, the edge tree of each vertex in the order of its keys, and the flag for the routes.
pub record TcSet : Type 0 where
  pub tc_tree : ℕ → Option TcEntry
  pub edge_tree : ℕ → List TcEdge
  pub changes_topology : Bool

unfoldable pub lookup_edge : ℕ → List TcEdge → Option TcEdge
lookup_edge dest [] = none
lookup_edge dest (e ∷ es) =
    let rest = lookup_edge dest es in if e.dest == dest then some e else rest

-- `avl_insert` on an edge tree.
unfoldable pub insert_edge : TcEdge → List TcEdge → List TcEdge
insert_edge new [] = new ∷ []
insert_edge new (e ∷ es) = if ltb new.dest e.dest then new ∷ e ∷ es else e ∷ insert_edge new es

-- `avl_delete` on an edge tree.
unfoldable pub remove_edge : ℕ → List TcEdge → List TcEdge
remove_edge dest [] = []
remove_edge dest (e ∷ es) = if e.dest == dest then es else e ∷ remove_edge dest es

-- A write through the pointer to an edge.
unfoldable pub update_edge : ℕ → (TcEdge → TcEdge) → List TcEdge → List TcEdge
update_edge dest write [] = []
update_edge dest write (e ∷ es) =
    if e.dest == dest then write e ∷ es else e ∷ update_edge dest write es

unfoldable pub on_edges : ℕ → (List TcEdge → List TcEdge) → TcSet → TcSet
on_edges tc change db = record db {
  edge_tree = λ a. if a == tc then change (db.edge_tree a) else db.edge_tree a;
}

unfoldable pub on_entry : ℕ → (TcEntry → TcEntry) → TcSet → TcSet
on_entry tc write db = record db {
  tc_tree =
      λ a. elim (db.tc_tree a) [ none ↦ none | some t ↦ some (if a == tc then write t else t) ];
}

-- `olsr_lookup_tc_edge`.
unfoldable pub lookup_tc_edge : TcSet → ℕ → ℕ → Option TcEdge
lookup_tc_edge db tc edge_addr = lookup_edge edge_addr (db.edge_tree tc)

abbrev pub new_entry : TcEntry
new_entry = record {
  virtual = false;
  tc_seq = negsuc 0;
  msg_hops = 0;
  ansn = 0;
  edge_gc_timer = none;
  validity_timer = none;
}

-- `olsr_add_tc_entry` for an address that has no entry; `none` is its NULL, without a main address.
unfoldable pub add_tc_entry : ℕ → ℕ → TcSet → Option TcSet
add_tc_entry router_id adr db =
    if router_id == 0
    then none
    else some (record db {
      tc_tree = λ a. if a == adr then some new_entry else db.tc_tree a;
      edge_tree = λ a. if a == adr then [] else db.edge_tree a;
    })

-- `olsr_locate_tc_entry`, which is also what `olsr_add_tc_edge_entry` does for the neighbor.
unfoldable pub locate_tc_entry : ℕ → ℕ → TcSet → Option TcSet
locate_tc_entry router_id adr db = elim (db.tc_tree adr) [
  | some tc ↦ some db
  | none ↦ add_tc_entry router_id adr db
]

-- The edge is set to real with its cost, and the two edges are connected.
unfoldable pub connect : (TcEdge → ℕ) → ℕ → ℕ → TcSet → TcSet
connect calc_tc_cost tc dest db =
    let linked = on_edges dest (update_edge tc (λ e. record e { inverse = true })) db in
    on_edges tc
      (update_edge dest (λ e.
        let real : TcEdge = record e { inverse = true; virtual = false } in
        record real { cost = calc_tc_cost real }))
      linked

unfoldable pub set_virtual : ℕ → ℕ → TcSet → TcSet
set_virtual tc dest = on_edges tc (update_edge dest (λ e. record e { virtual = true }))

abbrev pub new_edge : ℕ → ℕ → ℕ → TcEdge
new_edge dest ansn lq = record {
  dest = dest;
  inverse = false;
  neighbor = none;
  cost = 0;
  common_cost = 0;
  virtual = false;
  ansn = ansn;
  lq = lq;
}

-- What the database takes from outside: the main address, the link quality plugin with its value for
-- a new edge, its cost of an edge and what it reads from so many bytes of a message, the length of
-- an address and the filter of addresses.
pub record Config : Type 0 where
  pub router_id : ℕ
  pub clear_lq : ℕ
  pub calc_tc_cost : TcEdge → ℕ
  pub lq_size : ℕ
  pub deserialize_lq : List ℕ → ℕ
  pub ipsize : ℕ
  pub validate_address : ℕ → Bool

-- `olsr_add_tc_edge_entry`, which calls itself for the inverse edge, on fuel.
unfoldable pub add_tc_edge_entry : ℕ → Config → ℕ → ℕ → ℕ → TcSet → Option TcSet
add_tc_edge_entry zero cfg tc addr ansn db = none
add_tc_edge_entry (suc fuel) cfg tc addr ansn db =
    let inserted = on_edges tc (insert_edge (new_edge addr ansn cfg.clear_lq)) db in
    elim (locate_tc_entry cfg.router_id addr inserted) [
      | none ↦ none
      | some located ↦ elim (lookup_tc_edge located addr tc) [
        | some edge_inv ↦ some (connect cfg.calc_tc_cost tc addr located)
        | none ↦ elim (add_tc_edge_entry fuel cfg addr tc 0 located) [
          | none ↦ none
          | some both ↦ some (connect cfg.calc_tc_cost tc addr (set_virtual addr tc both))
        ]
      ]
    ]

-- `internal_delete_tc_edge_entry`; an edge that is gone was freed, which is undefined.
unfoldable pub internal_delete : ℕ → ℕ → TcSet → Option TcSet
internal_delete tc dest db = elim (lookup_tc_edge db tc dest) [
  | none ↦ none
  | some e ↦ some (on_edges tc (remove_edge dest) db)
]

unfoldable pub is_some {ℓ} : {A : Type ℓ} → Option A → Bool
is_some none = false
is_some (some a) = true

-- An edge of its own, which keeps its inverse edge alive.
unfoldable pub is_held : TcEdge → Bool
is_held e = not e.virtual || is_some e.neighbor

-- `olsr_delete_tc_edge_entry`; none where the edge or its inverse is not there. The code's last
-- step never runs, since `was_real` is never set.
unfoldable pub delete_tc_edge_entry : ℕ → ℕ → TcSet → Option TcSet
delete_tc_edge_entry tc dest db = elim (lookup_tc_edge db tc dest) [
  | none ↦ none
  | some e ↦ if not e.inverse then none else (elim (lookup_tc_edge db dest tc) [
    | none ↦ none
    | some edge_inv ↦
        if is_held edge_inv
        then some (set_virtual tc dest db)
        else (elim (internal_delete tc dest (record db { changes_topology = true })) [
          | none ↦ none
          | some one ↦ internal_delete dest tc one
        ])
  ])
]

-- `SEQNO_GREATER_THAN`.
unfoldable pub seqno_greater_than : ℕ → ℕ → Bool
seqno_greater_than s1 s2 =
    (ltb s2 s1 && leb (s1 - s2) (0xffff / 2)) || (ltb s1 s2 && ltb (0xffff / 2) (s2 - s1))

-- The loop over the edges of a vertex, as it found them, which deletes those that pass a test.
unfoldable pub delete_edges : ℕ → (TcEdge → Bool) → List ℕ → TcSet → Option (TcSet × Bool)
delete_edges tc test [] db = some (db, false)
delete_edges tc test (dest ∷ more) db = elim (lookup_tc_edge db tc dest) [
  | none ↦ none
  | some e ↦ elim (test e) [
    | false ↦ delete_edges tc test more db
    | true ↦ elim (delete_tc_edge_entry tc dest db) [
      | none ↦ none
      | some deleted ↦ elim (delete_edges tc test more deleted) [
        | none ↦ none
        | some (rest, retval) ↦ some (rest, true)
      ]
    ]
  ]
]

-- `delete_outdated_tc_edges`.
unfoldable pub delete_outdated_tc_edges : ℕ → TcSet → Option (TcSet × Bool)
delete_outdated_tc_edges tc db = elim (db.tc_tree tc) [
  | none ↦ none
  | some entry ↦
      elim (delete_edges tc (λ e. seqno_greater_than entry.ansn e.ansn)
        (map (λ e. e.dest) (db.edge_tree tc)) db) [
          | none ↦ none
          | some (rest, retval) ↦
              some (record rest { changes_topology = retval || rest.changes_topology }, retval)
        ]
]

-- `olsr_expire_tc_edge_gc`.
unfoldable pub expire_tc_edge_gc : ℕ → TcSet → Option TcSet
expire_tc_edge_gc tc db =
    elim (delete_outdated_tc_edges tc (on_entry tc (λ t. record t { edge_gc_timer = none }) db)) [
      | none ↦ none
      | some (rest, retval) ↦
          some (record rest { changes_topology = retval || rest.changes_topology })
    ]

unfoldable pub stop_timers : TcEntry → TcEntry
stop_timers t = record t { validity_timer = none; edge_gc_timer = none }

-- `olsr_delete_tc_entry` without the prefixes, aliases and networks: a vertex that still has edges
-- stays as a virtual one.
unfoldable pub delete_tc_entry : ℕ → TcSet → Option TcSet
delete_tc_entry tc db =
    elim (delete_edges tc (λ e. true) (map (λ e. e.dest) (db.edge_tree tc)) db) [
      | none ↦ none
      | some (rest, retval) ↦ elim (rest.edge_tree tc) [
        | [] ↦ some (record rest { tc_tree = λ a. if a == tc then none else rest.tc_tree a })
        | e ∷ es ↦
            some (on_entry tc (λ t. record (stop_timers t) { virtual = true; ansn = 0 }) rest)
      ]
    ]

-- `olsr_expire_tc_entry`.
unfoldable pub expire_tc_entry : ℕ → TcSet → Option TcSet
expire_tc_entry tc db =
    elim (delete_tc_entry tc (on_entry tc (λ t. record t { validity_timer = none }) db)) [
      | none ↦ none
      | some rest ↦ some (record rest { changes_topology = true })
    ]
