-- ===== src/TcSet/Input.antt =====
-- `olsr_delete_revoked_tc_edges` and `olsr_input_tc` of src/tc_set.c.
use olsr.Prelude.{
  ℕ, suc, Bool, true, false, not, ◌&&◌, ◌||◌, leb, if◌then◌else◌, List, [], ◌∷◌, length, map,
  Option, none, some,
}
use olsr.Prelude.Int.{pos, negsuc, ltb_ℤ}
use olsr.Timer.{Env, TimerEntry}
use olsr.Timer
use olsr.Duplicate.{seqno_diff}
use olsr.Spf.{link_cost_broken}
use olsr.Packet.{Bytes, pkt_get_u8, pkt_get_u16}
use olsr.TcSet.{
  TcEntry, TcSet, Config, on_edges, on_entry, update_edge, lookup_tc_edge, locate_tc_entry,
  delete_tc_edge_entry, seqno_greater_than,
}
use olsr.TcSet.Message.{address, Walk, update_edges}
use olsr.TcSet.Border.{calculate_tc_border}

-- The edge and its inverse edge get the broken cost before the edge is deleted.
unfoldable pub break_edge : ℕ → ℕ → TcSet → TcSet
break_edge tc dest db =
    on_edges dest (update_edge tc (λ e. record e { common_cost = link_cost_broken })) (
      on_edges tc
        (update_edge dest
          (λ e. record e { cost = link_cost_broken; common_cost = link_cost_broken }))
        db)

-- `olsr_delete_revoked_tc_edges` over the edges that it started with, and what it returns. The walk
-- up to the lower border and its end at the upper one are those of edges in the order of addresses.
unfoldable pub delete_revoked : ℕ → ℕ → ℕ → ℕ → List ℕ → TcSet → Option (TcSet × Bool)
delete_revoked tc ansn lower upper [] db = some (db, false)
delete_revoked tc ansn lower upper (dest ∷ more) db = elim (leb lower dest) [
  | false ↦ delete_revoked tc ansn lower upper more db
  | true ↦ elim (leb upper dest) [
    | true ↦ some (db, false)
    | false ↦ elim (lookup_tc_edge db tc dest) [
      | none ↦ none
      | some e ↦ elim (seqno_greater_than ansn e.ansn) [
        | false ↦ delete_revoked tc ansn lower upper more db
        | true ↦ elim (delete_tc_edge_entry tc dest (break_edge tc dest db)) [
          | none ↦ none
          | some deleted ↦ elim (delete_revoked tc ansn lower upper more deleted) [
            | none ↦ none
            | some (rest, retval) ↦ some (rest, true)
          ]
        ]
      ]
    ]
  ]
]

-- What `olsr_input_tc` takes of `struct olsr_message`, `payload` up to the end of the message.
pub record TcMessage : Type 0 where
  pub is_tc : Bool
  pub from_sym_neighbor : Bool
  pub originator : ℕ
  pub hopcnt : ℕ
  pub seqno : ℕ
  pub vtime : ℕ
  pub payload : Bytes
  pub reset_seqno : Bool

-- A message whose answer set number is older than that of the vertex.
unfoldable pub is_too_old : TcMessage → ℕ → Option TcEntry → Bool
is_too_old msg ansn none = false
is_too_old msg ansn (some tc) =
    not msg.reset_seqno
    && ltb_ℤ (negsuc 0) tc.tc_seq
    && not tc.virtual
    && ltb_ℤ (seqno_diff ansn tc.ansn) (pos 0)

-- The end of `olsr_input_tc`: the validity timer, and the deletion of the edges within the borders or
-- else the timer of the garbage collection.
unfoldable pub finish_tc : Env → TcMessage → ℕ → ℕ → ℕ → Walk → Option TcSet
finish_tc env msg ansn lower_border upper_border w =
    let tc = msg.originator in
    let timed =
      on_entry tc
        (λ t. record t { validity_timer = Timer.set env msg.vtime 5 false t.validity_timer })
        (record w.db { changes_topology = w.relevant_tc || w.db.changes_topology }) in
    let collect = some (
      on_entry tc (λ t. record t { edge_gc_timer = Timer.set env 2000 5 false t.edge_gc_timer })
        timed) in
    elim w.lower_border_ip [
      | none ↦ collect
      | some lower_ip ↦ elim w.upper_border_ip [
        | none ↦ collect
        | some upper_ip ↦ elim (calculate_tc_border lower_border lower_ip upper_border upper_ip) [
          | none ↦ none
          | some none ↦ collect
          | some (some (lower, upper)) ↦
              elim (delete_revoked tc ansn (address lower) (address upper)
                (map (λ e. e.dest) (timed.edge_tree tc)) timed) [
                  | none ↦ none
                  | some (rest, retval) ↦
                      some (record rest { changes_topology = retval || rest.changes_topology })
                ]
        ]
      ]
    ]

-- The message is taken: the vertex is there, gets the numbers of the message and its edges.
unfoldable pub process_tc : Config → Env → TcMessage → ℕ → ℕ → ℕ → Bytes → TcSet → Option TcSet
process_tc cfg env msg ansn lower_border upper_border curr db =
    elim (locate_tc_entry cfg.router_id msg.originator db) [
      | none ↦ none
      | some located ↦
          elim (update_edges (suc (length curr)) cfg msg.originator ansn curr (record {
            db =
                on_entry msg.originator
                  (λ t. record t { msg_hops = msg.hopcnt; tc_seq = pos msg.seqno; ansn = ansn })
                  located;
            lower_border_ip = none;
            upper_border_ip = none;
            relevant_tc = false;
          })) [ none ↦ none | some w ↦ finish_tc env msg ansn lower_border upper_border w ]
    ]

-- `olsr_input_tc`; none is undefined behaviour: a read behind the message, a write
-- outside of an address, or a missing main address.
unfoldable pub input_tc : Config → Env → TcMessage → TcSet → Option TcSet
input_tc cfg env msg db =
    if not msg.is_tc || not msg.from_sym_neighbor
    then some db
    else (elim (pkt_get_u16 msg.payload) [
      | none ↦ none
      | some (ansn, p) ↦ elim (pkt_get_u8 p) [
        | none ↦ none
        | some (lower_border, q) ↦ elim (pkt_get_u8 q) [
          | none ↦ none
          | some (upper_border, curr) ↦
              if is_too_old msg ansn (db.tc_tree msg.originator)
              then some db
              else process_tc cfg env msg ansn lower_border upper_border curr db
        ]
      ]
    ])
