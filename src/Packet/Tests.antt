-- ===== src/Packet/Tests.antt =====
-- A few fields on the wire, and the theorems there.
use olsr.Prelude.{◌≡◌, refl, some, [], ◌∷◌, ◌++◌, arith}
use olsr.Prelude.Int.{pos, negsuc}
use olsr.Clock.{encode_olsrv1, decode_olsrv1}
use olsr.Packet.{
  pkt_get_u8, pkt_get_u16, pkt_get_u32, pkt_get_s8, pkt_get_s16, pkt_get_s32, pkt_get_reltime,
  pkt_get_ipaddress, pkt_get_prefixlen, pkt_put_u8, pkt_put_u16, pkt_put_u32, pkt_put_s8,
  pkt_put_s16, pkt_put_s32, pkt_put_reltime, pkt_put_ipaddress, pkt_put_prefixlen, unsigned_word,
}
use olsr.Packet.Fields.{pkt_get-pkt_put}

big_endian : pkt_put_u32 0x0a0b0c0d ≡ 10 ∷ 11 ∷ 12 ∷ 13 ∷ []
unfolding pkt_put_u32
big_endian = refl

two_complement : pkt_put_s16 (negsuc 1) ≡ 0xff ∷ 0xfe ∷ []
unfolding pkt_put_s16 pkt_put_u16 unsigned_word
two_complement = refl

pkt_get-pkt_put_example :
    (pkt_get_u8 (pkt_put_u8 200 ++ 1 ∷ []) ≡ some (200, 1 ∷ []))
    × (pkt_get_u16 (pkt_put_u16 0x1234 ++ 1 ∷ []) ≡ some (0x1234, 1 ∷ []))
    × (pkt_get_u32 (pkt_put_u32 0x0a0b0c0d ++ 1 ∷ []) ≡ some (0x0a0b0c0d, 1 ∷ []))
    × (pkt_get_s8 (pkt_put_s8 (negsuc 127) ++ 1 ∷ []) ≡ some (negsuc 127, 1 ∷ []))
    × (pkt_get_s16 (pkt_put_s16 (negsuc 1) ++ 1 ∷ []) ≡ some (negsuc 1, 1 ∷ []))
    × (pkt_get_s32 (pkt_put_s32 (pos 70000) ++ 1 ∷ []) ≡ some (pos 70000, 1 ∷ []))
    × (pkt_get_reltime (pkt_put_reltime 2000 ++ 1 ∷ [])
        ≡ some (decode_olsrv1 (encode_olsrv1 2000), 1 ∷ []))
    × (pkt_get_ipaddress 4 (pkt_put_ipaddress (10 ∷ 1 ∷ 2 ∷ 3 ∷ []) ++ 1 ∷ [])
        ≡ some (10 ∷ 1 ∷ 2 ∷ 3 ∷ [], 1 ∷ []))
    × (pkt_get_prefixlen 4 (pkt_put_prefixlen 4 20 ++ 1 ∷ []) ≡ some (20, 1 ∷ []))
pkt_get-pkt_put_example =
    pkt_get-pkt_put 4 200 0x1234 0x0a0b0c0d 2000 20 (negsuc 127) (negsuc 1) (pos 70000)
      (10 ∷ 1 ∷ 2 ∷ 3 ∷ []) (1 ∷ []) (omega arith) (omega arith) (omega arith) (omega arith)
      (omega arith) (omega arith) (omega arith) refl (omega arith)
