-- ===== src/Parser.antt =====
-- The packet parser of src/parser.c with the header of a message (src/olsr.c), the walk over the
-- messages of a packet, and forwarding into the output buffers of src/net_olsr.c.
pub mod Header
pub mod Buffers
pub mod Walk
pub mod Input
mod Tests
use olsr.Prelude.{
  ℕ, zero, suc, ◌+◌, ◌-◌, ◌%◌, ◌^◌, Bool, true, false, not, ◌&&◌, ◌||◌, ◌==◌, ltb, leb,
  if◌then◌else◌, List, [], ◌∷◌, ◌++◌, length, drop, Option, none, some,
}
use olsr.Timer.{Env, TimerEntry}
use olsr.Timer
use olsr.Duplicate.{DuplicateSet, Status, is_duplicate_message}
use olsr.Packet.{
  Bytes, copy, pkt_get_u8, pkt_get_u16, pkt_get_reltime, pkt_get_ipaddress, pkt_put_u8, pkt_put_u16,
  pkt_put_reltime, pkt_put_ipaddress,
}
use olsr.TcSet.Message.{address}

-- A chain of readers.
infixl 20 ◌>>=◌
abbrev ◌>>=◌ {ℓ ℓ'} : {A : Type ℓ} {B : Type ℓ'} → Option A → (A → Option B) → Option B
none >>= f = none
some a >>= f = f a

-- `struct olsr_message` without its pointers into the packet.
pub record OlsrMessage : Type 0 where
  pub type : ℕ
  pub vtime : ℕ
  pub size : ℕ
  pub originator : Bytes
  pub ttl : ℕ
  pub hopcnt : ℕ
  pub seqno : ℕ

-- `MIN_MESSAGE_SIZE`.
abbrev pub min_message_size : ℕ → ℕ
min_message_size ipsize = 8 + ipsize

-- `olsr_parse_msg_hdr`; none is a read behind the end of the packet.
unfoldable pub parse_msg_hdr : ℕ → Bytes → Option OlsrMessage
parse_msg_hdr ipsize p0 = do
  (type, p1) ← pkt_get_u8 p0
  (vtime, p2) ← pkt_get_reltime p1
  (size, p3) ← pkt_get_u16 p2
  (originator, p4) ← pkt_get_ipaddress ipsize p3
  (ttl, p5) ← pkt_get_u8 p4
  (hopcnt, p6) ← pkt_get_u8 p5
  (seqno, p7) ← pkt_get_u16 p6
  some (record {
    type = type;
    vtime = vtime;
    size = size;
    originator = originator;
    ttl = ttl;
    hopcnt = hopcnt;
    seqno = seqno;
  })

-- `olsr_put_msg_hdr`.
unfoldable pub put_msg_hdr : OlsrMessage → Bytes
put_msg_hdr msg =
    pkt_put_u8 msg.type
    ++ pkt_put_reltime msg.vtime
    ++ pkt_put_u16 msg.size
    ++ pkt_put_ipaddress msg.originator
    ++ pkt_put_u8 msg.ttl
    ++ pkt_put_u8 msg.hopcnt
    ++ pkt_put_u16 msg.seqno

-- The header written over the one in the packet, where the packet goes on from the message.
unfoldable pub write_hdr : ℕ → OlsrMessage → Bytes → Bytes
write_hdr ipsize msg curr = put_msg_hdr msg ++ drop (min_message_size ipsize) curr

-- The TTL and hop count of a message that is passed on.
unfoldable pub next_hop : OlsrMessage → OlsrMessage
next_hop msg = record msg { hopcnt = (msg.hopcnt + 1) % 256; ttl = (msg.ttl + 255) % 256 }

-- What `struct interface` has for output: the pending bytes of its buffer, the number of the next
-- packet, the timer that holds the buffer, and the packets that went to the packet transform
-- functions and the socket, the last one first.
pub record Interface : Type 0 where
  pub id : ℕ
  pub mode_ether : Bool
  pub buff : Bytes
  pub maxsize : ℕ
  pub olsr_seqnum : ℕ
  pub buffer_hold_timer : Option TimerEntry
  pub sent : List Bytes

unfoldable pub net_output_pending : Interface → ℕ
net_output_pending ifp = length ifp.buff

-- `net_outbuffer_push`; what it returns is the number of the bytes that it added.
unfoldable pub net_outbuffer_push : Bytes → Interface → Interface × ℕ
net_outbuffer_push bytes ifp =
    if ltb ifp.maxsize (net_output_pending ifp + length bytes)
    then (ifp, 0)
    else (record ifp { buff = ifp.buff ++ bytes }, length bytes)

-- `net_output`, where `struct olsr_packet` goes before the pending bytes.
unfoldable pub net_output : Interface → Interface
net_output ifp = if net_output_pending ifp == 0 then ifp else record ifp {
  sent =
      (pkt_put_u16 (net_output_pending ifp + 4) ++ pkt_put_u16 ifp.olsr_seqnum ++ ifp.buff)
      ∷ ifp.sent;
  olsr_seqnum = (ifp.olsr_seqnum + 1) % 2 ^ 16;
  buff = [];
}

-- `set_buffer_timer`.
unfoldable pub set_buffer_timer : Env → Interface → Interface
set_buffer_timer env ifn = elim ifn.buffer_hold_timer [
  | none ↦ record ifn { buffer_hold_timer = some (Timer.start env 100 25 false) }
  | some t ↦ ifn
]

-- `olsr_expire_buffer_timer`.
unfoldable pub expire_buffer_timer : Interface → Interface
expire_buffer_timer ifn = net_output (record ifn { buffer_hold_timer = none })

-- The message for one interface.
unfoldable pub forward_on : Env → ℕ → Bytes → Interface → Interface
forward_on env in_if bytes ifn =
    if net_output_pending ifn == 0
    then (net_outbuffer_push bytes (set_buffer_timer env ifn)).0
    else (if ifn.mode_ether && ifn.id == in_if
        then ifn
        else (let pushed = net_outbuffer_push bytes ifn in
            if pushed.1 == length bytes
            then pushed.0
            else (net_outbuffer_push bytes (set_buffer_timer env (net_output ifn))).0))

-- The loop over the interfaces, with a random number for each.
unfoldable pub forward_all : (ℕ → Env) → ℕ → Bytes → List Interface → List Interface
forward_all env in_if bytes [] = []
forward_all env in_if bytes (ifn ∷ more) =
    forward_on (env 0) in_if bytes ifn ∷ forward_all (λ n. env (suc n)) in_if bytes more

-- What `olsr_forward_message` looks up of the neighbor that sent the message.
pub record Sender : Type 0 where
  pub is_sym : Bool
  pub mprs_count : ℕ

-- The state: the duplicate set, the interfaces, how many random numbers were drawn, and what the
-- functions that are registered for messages keep.
pub record Daemon {ℓ} (S : Type ℓ) : Type ℓ where
  pub duplicates : DuplicateSet
  pub interfaces : List Interface
  pub draws : ℕ
  pub rest : S

-- `struct parse_function_entry`; a function gets the message, the packet from its header on, the
-- interface, the address of the sender, and the status. No type is `PROMISCUOUS`.
pub record ParseFunctionEntry {ℓ} (S : Type ℓ) : Type ℓ where
  pub function : OlsrMessage → Bytes → ℕ → ℕ → Status → S → S
  pub type : Option ℕ

-- What the parser takes from outside; the sender is looked up by its address, and a packet parser
-- gets the size and the number of the packet, its bytes, the interface and the address of the sender.
pub record Setup {ℓ} (S : Type ℓ) : Type ℓ where
  pub router_id : ℕ
  pub ipsize : ℕ
  pub validate_address : ℕ → Bool
  pub sender : ℕ → S → Option Sender
  pub env : ℕ → Env
  pub parse_functions : List (ParseFunctionEntry S)
  pub packetparser_functions : List (ℕ → ℕ → Bytes → ℕ → ℕ → S → S)

module _ {ℓ} {S : Type ℓ} (cfg : Setup S) (in_if from_addr : ℕ) where
  -- `olsr_forward_message`, with the packet from the message on; none is a read behind the end of the
  -- packet, from which as many bytes are sent as the message says.
  unfoldable pub forward_message : OlsrMessage → Bytes → Daemon S → Option (Daemon S × Bytes)
  forward_message msg binary d = elim (cfg.sender from_addr d.rest) [
    | none ↦ some (d, binary)
    | some neighbor ↦
        if not neighbor.is_sym || neighbor.mprs_count == 0
        then some (d, binary)
        else (let r =
              is_duplicate_message (cfg.env d.draws) (address msg.originator) msg.seqno true
                d.duplicates in
            let checked = record d { duplicates = r.0; draws = suc d.draws } in
            if r.1.is_duplicate
            then some (checked, binary)
            else (let hop = next_hop msg in
                let written = write_hdr cfg.ipsize hop binary in
                if hop.ttl == 0 then some (checked, written) else (elim (copy msg.size written) [
                  | none ↦ none
                  | some (bytes, behind) ↦ some (
                    record checked {
                      interfaces =
                          forward_all (λ n. cfg.env (suc d.draws + n)) in_if bytes d.interfaces;
                      draws = suc d.draws + length d.interfaces;
                    },
                    written,
                  )
                ])))
  ]

  unfoldable pub call_functions : List (ParseFunctionEntry S) → OlsrMessage → Bytes → Status → S → S
  call_functions [] msg binary status s = s
  call_functions (entry ∷ more) msg binary status s =
      let wanted : Bool = elim entry.type [ none ↦ true | some type ↦ type == msg.type ] in
      call_functions more msg binary status
        (if wanted then entry.function msg binary in_if from_addr status s else s)

  unfoldable pub is_acceptable : OlsrMessage → Bool
  is_acceptable msg =
      not (
        address msg.originator == cfg.router_id
        || not (cfg.validate_address (address msg.originator)))
      && not (msg.ttl == 0 || ltb 255 (msg.ttl + msg.hopcnt))

  -- What `parse_packet` does with a message of a good size.
  unfoldable pub process_message : OlsrMessage → Bytes → Daemon S → Option (Daemon S × Bytes)
  process_message msg curr d =
      if not (is_acceptable msg)
      then some (d, curr)
      else (let r =
            is_duplicate_message (cfg.env d.draws) (address msg.originator) msg.seqno false
              d.duplicates in
          let checked = record d { duplicates = r.0; draws = suc d.draws } in
          if r.1.is_duplicate
          then forward_message msg curr checked
          else forward_message msg curr (record checked {
            rest = call_functions cfg.parse_functions msg curr r.1.status checked.rest;
          }))

  -- The loop of `parse_packet` over the messages, on fuel.
  unfoldable pub parse_messages : ℕ → Bytes → Daemon S → Option (Daemon S)
  parse_messages zero curr d = none
  parse_messages (suc fuel) curr d = elim (leb (min_message_size cfg.ipsize) (length curr)) [
    | false ↦ some d
    | true ↦ elim (parse_msg_hdr cfg.ipsize curr) [
      | none ↦ none
      | some msg ↦ elim (ltb (length curr) msg.size || msg.size == 0) [
        | true ↦ some d
        | false ↦ elim (process_message msg curr d) [
          | none ↦ none
          | some (next, written) ↦ parse_messages fuel (drop msg.size written) next
        ]
      ]
    ]
  ]

  unfoldable pub call_packetparsers : List (ℕ → ℕ → Bytes → ℕ → ℕ → S → S) → ℕ → ℕ → Bytes → S → S
  call_packetparsers [] size seqno binary s = s
  call_packetparsers (function ∷ more) size seqno binary s =
      call_packetparsers more size seqno binary (function size seqno binary in_if from_addr s)

  -- `parse_packet`.
  unfoldable pub parse_packet : Bytes → Daemon S → Option (Daemon S)
  parse_packet binary d = if ltb (length binary) 4 then some d else (elim (pkt_get_u16 binary) [
    | none ↦ none
    | some (size, packet) ↦ elim (pkt_get_u16 packet) [
      | none ↦ none
      | some (seqno, curr) ↦
          if not (size == length binary)
          then some d
          else parse_messages (length binary) curr (record d {
            rest = call_packetparsers cfg.packetparser_functions size seqno binary d.rest;
          })
    ]
  ])
