-- ===== src/Parser/Header.antt =====
-- The header of a message: `olsr_parse_msg_hdr`, `olsr_put_msg_hdr`, and what forwarding makes of it.
use olsr.Prelude.{
  ℕ, zero, suc, ◌+◌, ◌*◌, ◌/◌, ◌%◌, ◌^◌, ◌≤◌, ◌<◌, ◌≡◌, refl, sym, ap, subst, ◌∙◌, [], ◌∷◌, ◌++◌,
  length, length-append, drop, All, some, arith,
}
use mathlib.Core.List.{append_assoc}
use olsr.Clock.{decode_olsrv1}
use olsr.Clock.Mantissa.{encode-decode}
use olsr.Packet.{
  Bytes, copy, pkt_get_u8, pkt_get_u16, pkt_get_reltime, pkt_get_ipaddress, pkt_put_u8, pkt_put_u16,
  pkt_put_reltime, pkt_put_ipaddress,
}
use olsr.Parser.{OlsrMessage, min_message_size, parse_msg_hdr, put_msg_hdr, write_hdr, next_hop}

pub copy_lem :
    (n : ℕ) (p : Bytes)
    → n ≤ length p
    → All (λ b. b < 256) p
    → (a : Bytes) × (q : Bytes) × (copy n p ≡ some (a, q))
      × (a ++ q ≡ p)
      × (length a ≡ n)
      × All (λ b. b < 256) q
unfolding copy
copy_lem zero p h bytes = ([], p, refl, refl, refl, bytes)
copy_lem (suc n) [] h bytes = absurd (omega arith)
copy_lem (suc n) (x ∷ p) h bytes =
    let (a, q, run, same, long, more) = copy_lem n p (omega arith) bytes.1 in
    (x ∷ a, q, rw run refl, ap (x ∷◌) same, ap suc long, more)

-- A message as it is in a packet.
pub record Parsed (ipsize : ℕ) (curr : Bytes) (msg : OlsrMessage) (rest : Bytes) : Type 0 where
  pub run : parse_msg_hdr ipsize curr ≡ some msg
  pub back : put_msg_hdr msg ++ rest ≡ curr
  pub long : length msg.originator ≡ ipsize
  pub ttl_byte : msg.ttl < 256
  pub hopcnt_byte : msg.hopcnt < 256
  pub seqno_word : msg.seqno < 65536

word_back : (a b : ℕ) → a < 256 → b < 256 → pkt_put_u16 (a * 256 + b) ≡ a ∷ b ∷ []
unfolding pkt_put_u16
word_back a b ha hb =
    let high : (a * 256 + b) / 256 % 256 ≡ a = omega arith in
    let low : (a * 256 + b) % 256 ≡ b = omega arith in rw (high, low) refl

parse_msg_hdr_found :
    (ipsize t v s z : ℕ) (p a q : Bytes)
    → All (λ b. b < 256) (t ∷ v ∷ s ∷ z ∷ q)
    → copy ipsize p ≡ some (a, q)
    → a ++ q ≡ p
    → length a ≡ ipsize
    → 4 ≤ length q
    → (msg : OlsrMessage) × (rest : Bytes) × Parsed ipsize (t ∷ v ∷ s ∷ z ∷ p) msg rest
unfolding parse_msg_hdr put_msg_hdr pkt_get_u8 pkt_get_u16 pkt_get_reltime pkt_get_ipaddress
    pkt_put_u8 pkt_put_reltime pkt_put_ipaddress
parse_msg_hdr_found ipsize t v s z p a (l ∷ c ∷ x ∷ y ∷ rest) bytes run same long h =
    let (ht, (hv, (hs, (hz, (hl, (hc, (hx, (hy, hr)))))))) = bytes in
    (
      record {
        type = t;
        vtime = decode_olsrv1 v;
        size = s * 256 + z;
        originator = a;
        ttl = l;
        hopcnt = c;
        seqno = x * 256 + y;
      },
      rest,
      record {
        run = rw run refl;
        back =
            rw (encode-decode v hv, word_back s z hs hz, word_back x y hx hy)
              (simp (append_assoc, same, pkt_put_u8) refl);
        long = long;
        ttl_byte = hl;
        hopcnt_byte = hc;
        seqno_word = omega arith;
      },
    )
parse_msg_hdr_found ipsize t v s z p a _ bytes run same long h = absurd (omega arith)

pub parse_msg_hdr_lem :
    (ipsize : ℕ) (curr : Bytes)
    → min_message_size ipsize ≤ length curr
    → All (λ b. b < 256) curr
    → (msg : OlsrMessage) × (rest : Bytes) × Parsed ipsize curr msg rest
parse_msg_hdr_lem ipsize (t ∷ v ∷ s ∷ z ∷ p) h bytes =
    let (ht, (hv, (hs, (hz, hp)))) = bytes in
    let (a, q, run, same, all, more) = copy_lem ipsize p (omega arith) hp in
    parse_msg_hdr_found ipsize t v s z p a q (ht, (hv, (hs, (hz, more)))) run same all
      (omega (arith, ap length same, length-append a q))
parse_msg_hdr_lem ipsize _ h bytes = absurd (omega arith)

drop-append : (xs ys : Bytes) (n : ℕ) → n ≡ length xs → drop n (xs ++ ys) ≡ ys
drop-append [] ys n e = rw e refl
drop-append (x ∷ xs) ys n e = rw e (drop-append xs ys (length xs) refl)

abbrev before_ttl : OlsrMessage → Bytes
before_ttl msg =
    pkt_put_u8 msg.type ++ pkt_put_reltime msg.vtime ++ pkt_put_u16 msg.size ++ msg.originator

before_ttl-length : (msg : OlsrMessage) → length (before_ttl msg) ≡ 4 + length msg.originator
unfolding pkt_put_u8 pkt_put_u16 pkt_put_reltime
before_ttl-length msg = omega arith

put_msg_hdr-append :
    (msg : OlsrMessage) (rest : Bytes)
    → put_msg_hdr msg ++ rest
      ≡ before_ttl msg ++ msg.ttl ∷ msg.hopcnt ∷ (pkt_put_u16 msg.seqno ++ rest)
unfolding put_msg_hdr pkt_put_u8 pkt_put_u16 pkt_put_reltime pkt_put_ipaddress
put_msg_hdr-append msg rest = simp (append_assoc) refl

put_msg_hdr-length :
    (msg : OlsrMessage) → length (put_msg_hdr msg) ≡ min_message_size (length msg.originator)
unfolding put_msg_hdr pkt_put_u8 pkt_put_u16 pkt_put_reltime pkt_put_ipaddress
put_msg_hdr-length msg = omega (
  arith,
  length-append msg.originator (msg.ttl ∷ []),
  length-append (msg.originator ++ msg.ttl ∷ []) (msg.hopcnt ∷ []),
  length-append (msg.originator ++ msg.ttl ∷ [] ++ msg.hopcnt ∷ [])
      (msg.seqno / 256 % 256 ∷ msg.seqno % 256 ∷ []),
)

-- The header that forwarding writes is the one that was parsed with one hop less to live and one hop
-- more counted: of the bytes of the packet, of which there are enough for a header, these two
-- change, and no others.
pub write_hdr-next_hop :
    (ipsize : ℕ) (curr : Bytes)
    → min_message_size ipsize ≤ length curr
    → All (λ b. b < 256) curr
    → (msg : OlsrMessage) × (before : Bytes) × (after : Bytes) × (parse_msg_hdr ipsize curr
        ≡ some msg)
      × (write_hdr ipsize msg curr ≡ curr)
      × (curr ≡ before ++ msg.ttl ∷ msg.hopcnt ∷ after)
      × (write_hdr ipsize (next_hop msg) curr
          ≡ before ++ (msg.ttl + 255) % 256 ∷ (msg.hopcnt + 1) % 256 ∷ after)
      × (length before ≡ 4 + ipsize)
unfolding write_hdr next_hop
write_hdr-next_hop ipsize curr h bytes =
    let (msg, rest, parsed) = parse_msg_hdr_lem ipsize curr h bytes in
    let off : drop (min_message_size ipsize) curr ≡ rest =
      subst (λ c. drop (min_message_size ipsize) c ≡ rest) parsed.back
        (drop-append (put_msg_hdr msg) rest (min_message_size ipsize)
          (sym (put_msg_hdr-length msg ∙ ap (λ n. min_message_size n) parsed.long))) in
    (
      msg,
      before_ttl msg,
      pkt_put_u16 msg.seqno ++ rest,
      parsed.run,
      rw off parsed.back,
      sym parsed.back ∙ put_msg_hdr-append msg rest,
      rw off (put_msg_hdr-append (next_hop msg) rest),
      before_ttl-length msg ∙ ap (λ n. 4 + n) parsed.long,
    )

All-append :
    (xs ys : Bytes) → All (λ b. b < 256) (xs ++ ys) → All (λ b. b < 256) xs × All (λ b. b < 256) ys
All-append [] ys h = (tt, h)
All-append (x ∷ xs) ys h = let r = All-append xs ys h.1 in ((h.0, r.0), r.1)

append-All :
    (xs ys : Bytes) → All (λ b. b < 256) xs → All (λ b. b < 256) ys → All (λ b. b < 256) (xs ++ ys)
append-All [] ys hx hy = hy
append-All (x ∷ xs) ys hx hy = (hx.0, append-All xs ys hx.1 hy)

-- What the walk over a packet needs of a header: the number fits 16 bits, and what forwarding writes
-- is as long as what was there.
pub record Rewritable (ipsize : ℕ) (curr : Bytes) (msg : OlsrMessage) : Type 0 where
  pub run : parse_msg_hdr ipsize curr ≡ some msg
  pub seqno_word : msg.seqno < 2 ^ 16
  pub same_length : length (write_hdr ipsize (next_hop msg) curr) ≡ length curr
  pub bytes : All (λ b. b < 256) (write_hdr ipsize (next_hop msg) curr)

some_injective : (m n : OlsrMessage) → some m ≡ some n → m ≡ n
some_injective m n e = ground (arith, e)

pub header-Rewritable :
    (ipsize : ℕ) (curr : Bytes)
    → min_message_size ipsize ≤ length curr
    → All (λ b. b < 256) curr
    → (msg : OlsrMessage) × Rewritable ipsize curr msg
header-Rewritable ipsize curr h bytes =
    let (msg, before, after, run, keep, was, is, long) = write_hdr-next_hop ipsize curr h bytes in
    let (found, rest, parsed) = parse_msg_hdr_lem ipsize curr h bytes in
    let apart =
      All-append before (msg.ttl ∷ msg.hopcnt ∷ after) (subst (All (λ b. b < 256)) was bytes) in
    (
      msg,
      record {
        run = run;
        seqno_word =
            subst (λ m. m.seqno < 2 ^ 16) (some_injective found msg (sym parsed.run ∙ run))
              parsed.seqno_word;
        same_length =
            ap length is
            ∙ length-append before ((msg.ttl + 255) % 256 ∷ (msg.hopcnt + 1) % 256 ∷ after)
            ∙ sym (length-append before (msg.ttl ∷ msg.hopcnt ∷ after))
            ∙ sym (ap length was);
        bytes = subst (All (λ b. b < 256)) (sym is) (
            append-All before ((msg.ttl + 255) % 256 ∷ (msg.hopcnt + 1) % 256 ∷ after) apart.0
              (omega arith, (omega arith, apart.1.1.1)));
      },
    )
