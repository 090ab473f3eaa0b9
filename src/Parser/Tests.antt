-- ===== src/Parser/Tests.antt =====
-- Runs of the packet parser, and the theorems at concrete packets.
use olsr.Prelude.{
  ◌≤◌, List, Option, ◌==◌, ℕ, ◌+◌, ◌%◌, ◌≡◌, refl, true, false, [], ◌∷◌, ◌++◌, length, none, some,
  arith,
}
use olsr.Timer.{Env}
use olsr.Packet.{Bytes}
use olsr.Parser.{
  OlsrMessage, Interface, Daemon, Setup, ParseFunctionEntry, min_message_size, parse_msg_hdr,
  write_hdr, next_hop, forward_on,
}
use olsr.Parser.Input.{Received, add_function, remove_function, olsr_input, olsr_input_ends}
use olsr.Parser.Header.{write_hdr-next_hop}
use olsr.Parser.Buffers.{Fits, traffic, forward_on_lem}
use olsr.Parser.Walk.{IsDaemon}

abbrev env : Env
env = record { now_times = 1000; rand_max = 2147483647; random = 5 }

-- A message of type 1 from 10.0.0.1, with a header and two bytes.
abbrev message : Bytes
message = 1 ∷ 0x86 ∷ 0 ∷ 14 ∷ 10 ∷ 0 ∷ 0 ∷ 1 ∷ 3 ∷ 0 ∷ 0 ∷ 9 ∷ 77 ∷ 78 ∷ []

abbrev packet : Bytes
packet = 0 ∷ 18 ∷ 0 ∷ 1 ∷ message

-- An interface with two bytes pending, and room for 16.
abbrev interface : Interface
interface = record {
  id = 4;
  mode_ether = false;
  buff = 5 ∷ 6 ∷ [];
  maxsize = 16;
  olsr_seqnum = 65535;
  buffer_hold_timer = none;
  sent = [];
}

-- The functions count the messages; the sender is a symmetric neighbor that chose this node.
abbrev setup : Setup ℕ
setup = record {
  router_id = 1;
  ipsize = 4;
  validate_address = λ a. true;
  sender = λ from_addr s. some (record { is_sym = true; mprs_count = 1 });
  env = λ n. env;
  parse_functions =
      record { function = λ msg bytes in_if from_addr status s. s + 1; type = some 1 }
      ∷ record { function = λ msg bytes in_if from_addr status s. s + 100; type = some 2 }
      ∷ [];
  packetparser_functions = [];
}

abbrev daemon : Daemon ℕ
daemon = record {
  duplicates = record { forward_set = []; processing_set = [] };
  interfaces = interface ∷ [];
  draws = 0;
  rest = 0;
}

daemon-IsDaemon : IsDaemon daemon
unfolding olsr.Parser.net_output_pending
daemon-IsDaemon = record { duplicates = omega arith; interfaces = (omega arith, tt) }

-- An interface in mode ether gets a message back that came in on it if it has no bytes pending.
abbrev idle : Interface
idle = record interface { mode_ether = true; buff = [] }

back_runs : (forward_on env 4 message idle).buff ≡ message
unfolding forward_on olsr.Parser.net_outbuffer_push olsr.Parser.set_buffer_timer
    olsr.Parser.net_output_pending
back_runs = refl

write_hdr-next_hop_example :
    (msg : OlsrMessage) × (before : Bytes) × (after : Bytes) × (parse_msg_hdr 4 message ≡ some msg)
    × (write_hdr 4 msg message ≡ message)
    × (message ≡ before ++ msg.ttl ∷ msg.hopcnt ∷ after)
    × (write_hdr 4 (next_hop msg) message
        ≡ before ++ (msg.ttl + 255) % 256 ∷ (msg.hopcnt + 1) % 256 ∷ after)
    × (length before ≡ 4 + 4)
write_hdr-next_hop_example = write_hdr-next_hop 4 message (omega arith) (ground arith)

forward_on_lem_example :
    (traffic (forward_on env 9 message interface) ≡ traffic interface ++ message)
    × Fits (forward_on env 9 message interface)
unfolding olsr.Parser.net_output_pending
forward_on_lem_example = forward_on_lem env 9 message interface (omega arith) (omega arith)

-- A datagram from a neighbor, one that is empty, and one more.
abbrev waiting : List Received
waiting =
    record { packet = packet; size_ok = true; from_addr = 10; from_ourself = false; in_if = some 4 }
    ∷ record { packet = []; size_ok = true; from_addr = 10; from_ourself = false; in_if = some 4 }
    ∷ record {
      packet = packet;
      size_ok = true;
      from_addr = 10;
      from_ourself = false;
      in_if = some 4;
    }
    ∷ []

-- A preprocessor that counts, and takes the packet as it is.
abbrev counting : Bytes → ℕ → ℕ → ℕ → Option Bytes × ℕ
counting bytes in_if from_addr s = (some bytes, s + 1)

-- The function that was registered last is called first, and is found when it is removed.
remove_runs : remove_function (◌== 7) (add_function 5 (add_function 7 [])) ≡ (5 ∷ [], 1)
unfolding remove_function add_function
remove_runs = refl

olsr_input_ends_example :
    (d' : Daemon ℕ) × (left : List Received) × (olsr_input setup (counting ∷ []) waiting daemon
      ≡ some (d', left))
    × IsDaemon d'
    × (3 ≤ length left + 32)
olsr_input_ends_example =
    olsr_input_ends setup (counting ∷ []) waiting daemon
      ((λ packet in_if from_addr s bytes. bytes), tt) (ground arith) daemon-IsDaemon
