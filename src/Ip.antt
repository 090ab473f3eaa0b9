-- ===== src/Ip.antt =====
-- ipcalc.c and ipcalc.h: prefixes and netmasks of IP addresses. An address is the words of its
-- `union olsr_ip_addr`, each by its value in host byte order: where the code swaps the netmask to
-- compare words in network byte order, the same bits are compared here. `none` is behaviour that C
-- leaves undefined: a shift by a negative number or a word behind the address.
pub mod Netmask
pub mod Net
pub mod Acl
mod Tests
use olsr.Prelude.{
  ℕ, zero, suc, ◌+◌, ◌-◌, ◌*◌, ◌/◌, ◌%◌, ◌^◌, bit_and, min, ltb, leb, ◌==◌, if◌then◌else◌, Bool,
  true, false, not, ◌&&◌, Option, none, some, List, [], ◌∷◌, ◌++◌, length, replicate,
}
use olsr.Clock.{u8, u32}

pub data IpVersion : Type 0 where
  af_inet : IpVersion
  af_inet6 : IpVersion

-- `union olsr_ip_addr`: an IPv4 address is its first word.
abbrev pub IpAddr : Type 0
IpAddr = List ℕ

pub record IpPrefix : Type 0 where
  pub prefix : IpAddr
  pub prefix_len : ℕ

-- `prefix_to_netmask` on a buffer of `len` bytes: the bytes and the result.
unfoldable pub prefix_to_netmask : ℕ → ℕ → List ℕ × Bool
prefix_to_netmask len prefixlen =
    let end = min len (prefixlen / 8) in
    let rest =
      if ltb end len
      then u8 (0xff * 2 ^ (8 - prefixlen % 8)) ∷ replicate (len - (end + 1)) 0
      else [] in
    (replicate end 0xff ++ rest, leb prefixlen (len * 8))

-- The `switch` of `netmask_to_prefix` on the last byte: what is added, or `none` for a bogus mask.
unfoldable pub last_byte : ℕ → Option ℕ
last_byte a =
    if a == 0
    then some 0
    else if a == 128
    then some 1
    else if a == 192
    then some 2
    else if a == 224
    then some 3
    else if a == 240
    then some 4
    else if a == 248
    then some 5
    else if a == 252
    then some 6
    else if a == 254
    then some 7
    else if a == 255
    then some 8
    else none

abbrev u16 : ℕ → ℕ
u16 n = n % 2 ^ 16

-- The loop of `netmask_to_prefix` and what follows it, from the byte at `a` on; `len` is that of the
-- whole mask.
unfoldable pub netmask_loop : ℕ → ℕ → List ℕ → ℕ
netmask_loop len prefix [] = prefix
netmask_loop len prefix (a ∷ adr) =
    let longer = netmask_loop len (u16 (prefix + 8)) adr in
    if a == 0xff
    then longer
    else elim (last_byte a) [ some n ↦ u16 (prefix + n) | none ↦ u16 (len * 8) ]

unfoldable pub netmask_to_prefix : List ℕ → ℕ
netmask_to_prefix adr = u8 (netmask_loop (length adr) 0 adr)

unfoldable pub prefix_to_netmask4 : ℕ → Option ℕ
prefix_to_netmask4 prefixlen =
    if prefixlen == 0
    then some 0
    else if leb prefixlen 32
    then some (u32 (0xffff_ffff * 2 ^ (32 - prefixlen)))
    else none

-- The comparison of two words under the mask of a prefix length.
unfoldable pub same_masked : ℕ → ℕ → ℕ → Option Bool
same_masked i n prefix_len = elim (prefix_to_netmask4 prefix_len) [
  | none ↦ none
  | some netmask ↦ some (bit_and i netmask == bit_and n netmask)
]

-- The IPv6 branch of `ip_in_net`, from the words on that the pointers `i` and `n` stand at.
unfoldable pub in_net6 : IpAddr → IpAddr → ℕ → Option Bool
in_net6 [] n prefix_len = none
in_net6 (i ∷ is) [] prefix_len = none
in_net6 (i ∷ is) (n ∷ ns) prefix_len =
    let rest = in_net6 is ns (prefix_len - 32) in
    if ltb 32 prefix_len then (if i == n then rest else some false) else same_masked i n prefix_len

unfoldable pub in_net4 : IpAddr → IpAddr → ℕ → Option Bool
in_net4 [] n prefix_len = none
in_net4 (i ∷ is) [] prefix_len = none
in_net4 (i ∷ is) (n ∷ ns) prefix_len = same_masked i n prefix_len

unfoldable pub ip_in_net : IpAddr → IpPrefix → IpVersion → Option Bool
ip_in_net ipaddr net af_inet = in_net4 ipaddr net.prefix net.prefix_len
ip_in_net ipaddr net af_inet6 = in_net6 ipaddr net.prefix net.prefix_len
