-- ===== src/TcSet/Message.antt =====
-- The edges of a TC message in src/tc_set.c: `olsr_tc_update_edge` and the loop around it.
use olsr.Prelude.{
  ℕ, zero, suc, ◌+◌, ◌*◌, ◌^◌, Bool, true, false, ◌||◌, leb, [], ◌∷◌, length, Option, none, some,
}
use olsr.Packet.{Bytes, copy, pkt_get_ipaddress}
use olsr.TcSet.{
  TcEdge, TcSet, Config, on_edges, on_entry, update_edge, lookup_tc_edge, add_tc_edge_entry,
}

-- An address as a number, in the order of `memcmp`.
unfoldable pub address : Bytes → ℕ
address [] = 0
address (b ∷ bs) = b * 256 ^ length bs + address bs

-- What `olsr_tc_update_edge` leaves: the database, the pointer, the neighbor that it read, and its
-- return value.
pub record Update : Type 0 where
  pub db : TcSet
  pub curr : Bytes
  pub neighbor : Bytes
  pub edge_change : Bool

unfoldable pub set_real : ℕ → ℕ → TcSet → TcSet
set_real tc dest db =
    on_entry tc (λ t. record t { virtual = false })
      (on_edges tc (update_edge dest (λ e. record e { virtual = false })) db)

-- The edge that is there takes the data of the message, and its inverse edge the common cost.
unfoldable pub refresh_edge : Config → ℕ → ℕ → ℕ → ℕ → TcEdge → TcSet → TcSet
refresh_edge cfg tc dest ansn lq edge db =
    let cost = cfg.calc_tc_cost (record edge { ansn = ansn; lq = lq }) in
    on_edges dest (update_edge tc (λ e. record e { common_cost = cost })) (
      on_edges tc
        (update_edge dest (λ e. record e { ansn = ansn; lq = lq; cost = cost; common_cost = cost }))
        db)

-- `olsr_tc_update_edge`. An address that the filter rejects leaves the pointer behind the address,
-- before its link quality.
unfoldable pub tc_update_edge : Config → ℕ → ℕ → Bytes → TcSet → Option Update
tc_update_edge cfg tc ansn curr db = elim (pkt_get_ipaddress cfg.ipsize curr) [
  | none ↦ none
  | some (neighbor, rest) ↦
      let dest = address neighbor in
      elim (lookup_tc_edge db tc dest) [
        | none ↦ elim (cfg.validate_address dest) [
          | false ↦ some (record { db = db; curr = rest; neighbor = neighbor; edge_change = false })
          | true ↦ elim (add_tc_edge_entry 2 cfg tc dest ansn db) [
            | none ↦ none
            | some added ↦ elim (copy cfg.lq_size rest) [
              | none ↦ none
              | some (bytes, next) ↦
                  let lq = cfg.deserialize_lq bytes in
                  some (record {
                    db =
                        set_real tc dest
                          (on_edges tc (update_edge dest (λ e. record e { lq = lq })) added);
                    curr = next;
                    neighbor = neighbor;
                    edge_change = true;
                  })
            ]
          ]
        ]
        | some edge ↦ elim (copy cfg.lq_size rest) [
          | none ↦ none
          | some (bytes, next) ↦ some (record {
            db =
                set_real tc dest (refresh_edge cfg tc dest ansn (cfg.deserialize_lq bytes) edge db);
            curr = next;
            neighbor = neighbor;
            edge_change = true;
          })
        ]
      ]
]

-- What the loop of `olsr_input_tc` over the edges leaves: the database, the first and the last
-- neighbor, and whether an edge was changed.
pub record Walk : Type 0 where
  pub db : TcSet
  pub lower_border_ip : Option Bytes
  pub upper_border_ip : Option Bytes
  pub relevant_tc : Bool

-- The loop, on fuel, up to the end of the message.
unfoldable pub update_edges : ℕ → Config → ℕ → ℕ → Bytes → Walk → Option Walk
update_edges zero cfg tc ansn curr w = none
update_edges (suc fuel) cfg tc ansn curr w = elim (leb (cfg.ipsize + cfg.lq_size) (length curr)) [
  | false ↦ some w
  | true ↦ elim (tc_update_edge cfg tc ansn curr w.db) [
    | none ↦ none
    | some u ↦ update_edges fuel cfg tc ansn u.curr (record {
      db = u.db;
      lower_border_ip = elim w.lower_border_ip [ none ↦ some u.neighbor | some ip ↦ some ip ];
      upper_border_ip = some u.neighbor;
      relevant_tc = u.edge_change || w.relevant_tc;
    })
  ]
]
