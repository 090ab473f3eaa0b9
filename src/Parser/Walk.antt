-- ===== src/Parser/Walk.antt =====
-- `parse_packet` of src/parser.c over a whole packet: it ends within the packet, and what the parser
-- keeps stays well formed.
use olsr.Prelude.{
  Option, ◌≤◌, ℕ, zero, suc, ◌+◌, ◌-◌, ◌*◌, ◌<◌, ◌≡◌, refl, ap, ◌∙◌, inl, inr, true, false, not,
  ◌||◌, ◌==◌, ltb, leb, Bool-cases, Option-cases, if_rule, [], ◌∷◌, length, drop, All, arith, some,
}
use olsr.Timer.{Env}
use olsr.Duplicate.{is_duplicate_message}
use olsr.Duplicate.Invariant.{IsValid, is_duplicate_message-IsValid}
use olsr.Packet.{Bytes, pkt_get_u16}
use olsr.Packet.Fields.{copy_lem}
use olsr.TcSet.Message.{address}
use olsr.Parser.{
  OlsrMessage, Daemon, Setup, min_message_size, write_hdr, next_hop, forward_all, forward_message,
  process_message, is_acceptable, call_functions, parse_messages, parse_packet, call_packetparsers,
}
use olsr.Parser.Header.{Rewritable, header-Rewritable}
use olsr.Parser.Buffers.{Fits, forward_all-Fits}

-- What the parser keeps is well formed: the duplicate sets, and no output buffer is too full.
pub record IsDaemon {ℓ} {S : Type ℓ} (d : Daemon S) : Type 0 where
  pub duplicates : IsValid d.duplicates
  pub interfaces : All Fits d.interfaces

-- The packet from a message on is as long as before, and made of bytes.
pub record Kept {ℓ} {S : Type ℓ} (curr : Bytes) (r : Daemon S × Bytes) : Type 0 where
  pub daemon : IsDaemon r.0
  pub same_length : length r.1 ≡ length curr
  pub bytes : All (λ b. b < 256) r.1

-- A step within the packet, which is kept.
abbrev Steps {ℓ} : {S : Type ℓ} → Bytes → Option (Daemon S × Bytes) → Type ℓ
Steps {S = S} curr o = (r : Daemon S × Bytes) × (o ≡ some r) × Kept curr r

All-drop : (n : ℕ) (xs : Bytes) → All (λ b. b < 256) xs → All (λ b. b < 256) (drop n xs)
All-drop zero xs h = h
All-drop (suc n) [] h = tt
All-drop (suc n) (x ∷ xs) h = All-drop n xs h.1

length-drop : (n : ℕ) (xs : Bytes) → length (drop n xs) ≡ length xs - n
length-drop zero xs = omega arith
length-drop (suc n) [] = omega arith
length-drop (suc n) (x ∷ xs) = omega (arith, length-drop n xs)

less_left : (n size left fuel : ℕ) → 0 < size → n < suc fuel → left ≡ n - size → 0 < n → left < fuel
less_left n size left fuel h more e full = omega arith

module _ {ℓ} {S : Type ℓ} (cfg : Setup S) (in_if from_addr : ℕ) where
  forward_message-Kept :
      (msg : OlsrMessage) (curr : Bytes) (d : Daemon S)
      → IsDaemon d
      → All (λ b. b < 256) curr
      → Rewritable cfg.ipsize curr msg
      → msg.size ≤ length curr
      → Steps curr (forward_message cfg in_if from_addr msg curr d)
  unfolding forward_message
  forward_message-Kept msg curr d v bytes w fits =
      let same : Steps curr (some (d, curr)) =
        ((d, curr), refl, record { daemon = v; same_length = refl; bytes = bytes }) in
      let r =
        is_duplicate_message (cfg.env d.draws) (address msg.originator) msg.seqno true
          d.duplicates in
      let valid : IsValid r.0 =
        is_duplicate_message-IsValid (cfg.env d.draws) (address msg.originator) msg.seqno true
          d.duplicates w.seqno_word v.duplicates in
      let checked : Daemon S = record d { duplicates = r.0; draws = suc d.draws } in
      let written = write_hdr cfg.ipsize (next_hop msg) curr in
      let env : ℕ → Env = λ n. cfg.env (suc d.draws + n) in
      let (sent, behind, copied, _) =
        copy_lem msg.size written (omega (arith, fits, w.same_length)) in
      let passed : Daemon S = record checked {
        interfaces = forward_all env in_if sent d.interfaces;
        draws = suc d.draws + length d.interfaces;
      } in
      let still : IsDaemon checked = record { duplicates = valid; interfaces = v.interfaces } in
      let full : IsDaemon passed = record {
        duplicates = valid;
        interfaces = forward_all-Fits env in_if sent d.interfaces v.interfaces;
      } in
      elim (Option-cases (cfg.sender from_addr d.rest)) [
        | inl unknown ↦ rw (unknown, forward_message) same
        | inr (neighbor, known) ↦
            rw (known, forward_message)
              (if_rule (Steps curr) (not neighbor.is_sym || neighbor.mprs_count == 0)
                (some (d, curr)) _ same
                (if_rule (Steps curr) r.1.is_duplicate (some (checked, curr)) _
                  (
                    (checked, curr),
                    refl,
                    record { daemon = still; same_length = refl; bytes = bytes },
                  )
                  (if_rule (Steps curr) ((next_hop msg).ttl == 0) (some (checked, written)) _
                    (
                      (checked, written),
                      refl,
                      record { daemon = still; same_length = w.same_length; bytes = w.bytes },
                    )
                    (rw copied (
                      (passed, written),
                      refl,
                      record { daemon = full; same_length = w.same_length; bytes = w.bytes },
                    )))))
      ]

  process_message-Kept :
      (msg : OlsrMessage) (curr : Bytes) (d : Daemon S)
      → IsDaemon d
      → All (λ b. b < 256) curr
      → Rewritable cfg.ipsize curr msg
      → msg.size ≤ length curr
      → Steps curr (process_message cfg in_if from_addr msg curr d)
  unfolding process_message
  process_message-Kept msg curr d v bytes w fits =
      let same : Steps curr (some (d, curr)) =
        ((d, curr), refl, record { daemon = v; same_length = refl; bytes = bytes }) in
      let r =
        is_duplicate_message (cfg.env d.draws) (address msg.originator) msg.seqno false
          d.duplicates in
      let valid : IsValid r.0 =
        is_duplicate_message-IsValid (cfg.env d.draws) (address msg.originator) msg.seqno false
          d.duplicates w.seqno_word v.duplicates in
      let checked : Daemon S = record d { duplicates = r.0; draws = suc d.draws } in
      let called : Daemon S = record checked {
        rest = call_functions cfg in_if from_addr cfg.parse_functions msg curr r.1.status d.rest;
      } in
      if_rule (Steps curr) (not (is_acceptable cfg in_if from_addr msg)) (some (d, curr)) _ same (
        if_rule (Steps curr) r.1.is_duplicate (forward_message cfg in_if from_addr msg curr checked)
          (forward_message cfg in_if from_addr msg curr called)
          (forward_message-Kept msg curr checked
            (record { duplicates = valid; interfaces = v.interfaces }) bytes w fits)
          (forward_message-Kept msg curr called
            (record { duplicates = valid; interfaces = v.interfaces }) bytes w fits))

  abbrev Ends : ℕ → Bytes → Daemon S → Type ℓ
  Ends fuel curr d =
      (d' : Daemon S) × (parse_messages cfg in_if from_addr fuel curr d ≡ some d') × IsDaemon d'

  parse_message-Ends :
      (fuel : ℕ) (curr : Bytes) (d : Daemon S) (msg : OlsrMessage)
      → leb (min_message_size cfg.ipsize) (length curr) ≡ true
      → length curr < suc fuel
      → IsDaemon d
      → All (λ b. b < 256) curr
      → Rewritable cfg.ipsize curr msg
      → ((curr' : Bytes) (d1 : Daemon S)
          → length curr' < fuel
          → IsDaemon d1
          → All (λ b. b < 256) curr'
          → Ends fuel curr' d1)
      → Ends (suc fuel) curr d
  unfolding parse_messages
  parse_message-Ends fuel curr d msg long more v bytes w ih =
      elim (Bool-cases (ltb (length curr) msg.size || msg.size == 0)) [
        | inl bad ↦ (d, rw (long, w.run, bad, parse_messages) refl, v)
        | inr good ↦
            let (r, processed, kept) =
              process_message-Kept msg curr d v bytes w (ground (arith, good)) in
            let some_size : 0 < msg.size = ground (arith, good) in
            let dropped = length-drop msg.size r.1 ∙ ap (λ n. n - msg.size) kept.same_length in
            let (d', run, v') =
              ih (drop msg.size r.1) r.0
                (less_left (length curr) msg.size (length (drop msg.size r.1)) fuel some_size more
                  dropped (ground (arith, long)))
                kept.daemon (All-drop msg.size r.1 kept.bytes) in
            (d', rw (long, w.run, good, processed, parse_messages) run, v')
      ]

  parse_messages-Ends :
      (fuel : ℕ) (curr : Bytes) (d : Daemon S)
      → length curr < fuel
      → IsDaemon d
      → All (λ b. b < 256) curr
      → Ends fuel curr d
  unfolding parse_messages
  parse_messages-Ends zero curr d more v bytes = absurd (omega arith)
  parse_messages-Ends (suc fuel) curr d more v bytes =
      elim (Bool-cases (leb (min_message_size cfg.ipsize) (length curr))) [
        | inr short ↦ (d, rw (short, parse_messages) refl, v)
        | inl long ↦
            let (msg, w) = header-Rewritable cfg.ipsize curr (ground (arith, long)) bytes in
            parse_message-Ends fuel curr d msg long more v bytes w
              (λ curr' d1. parse_messages-Ends fuel curr' d1)
      ]

  -- A packet is parsed to its end without a read behind it, whatever bytes it has and whatever the
  -- registered functions make of what they keep; well formed duplicate sets stay so, and no output
  -- buffer that is not too full is filled with more than it has room for.
  pub parse_packet_ends :
      (binary : Bytes) (d : Daemon S)
      → All (λ b. b < 256) binary
      → IsDaemon d
      → (d' : Daemon S) × (parse_packet cfg in_if from_addr binary d ≡ some d') × IsDaemon d'
  unfolding parse_packet pkt_get_u16
  parse_packet_ends (a ∷ b ∷ x ∷ y ∷ curr) d bytes v =
      let d1 : Daemon S = record d {
        rest =
            call_packetparsers cfg in_if from_addr cfg.packetparser_functions (a * 256 + b)
              (x * 256 + y) (a ∷ b ∷ x ∷ y ∷ curr) d.rest;
      } in
      let (d', run, v') =
        parse_messages-Ends (length (a ∷ b ∷ x ∷ y ∷ curr)) curr d1 (omega arith)
          (record { duplicates = v.duplicates; interfaces = v.interfaces }) bytes.1.1.1.1 in
      let enough : ltb (length (a ∷ b ∷ x ∷ y ∷ curr)) 4 ≡ false = ground arith in
      elim (Bool-cases (a * 256 + b == length (a ∷ b ∷ x ∷ y ∷ curr))) [
        | inr bad ↦ (d, rw (enough, bad, parse_packet) refl, v)
        | inl good ↦ (d', rw (enough, good, parse_packet) run, v')
      ]
  parse_packet_ends binary d bytes v = (d, refl, v)
