-- ===== src/Ip/Acl.antt =====
-- olsr_ip_acl.c and olsr_ip_prefix_list.c: access lists of prefixes. `ipcmp` compares two addresses
-- of the IP version.
pub mod Laws
use olsr.Prelude.{
  ℕ, zero, suc, ltb, ◌==◌, if◌then◌else◌, Bool, true, false, not, ◌&&◌, Option, none, some, List,
  [], ◌∷◌, ◌++◌,
}
use olsr.Ip.{IpVersion, af_inet, af_inet6, IpAddr, IpPrefix, ip_in_net}

-- Whether `ip4cmp` or `ip6cmp` is 0: an IPv4 address is the first word, an IPv6 address is all.
unfoldable pub same_words : IpAddr → IpAddr → Bool
same_words [] [] = true
same_words [] (w ∷ ws) = false
same_words (v ∷ vs) [] = false
same_words (v ∷ vs) (w ∷ ws) = v == w && same_words vs ws

unfoldable pub first_word : IpAddr → IpAddr → Bool
first_word [] b = true
first_word (v ∷ vs) [] = true
first_word (v ∷ vs) (w ∷ ws) = v == w

-- `ipcmp` is 0.
unfoldable pub ipcmp_zero : IpVersion → IpAddr → IpAddr → Bool
ipcmp_zero af_inet a b = first_word a b
ipcmp_zero af_inet6 a b = same_words a b

unfoldable pub ip_prefix_list_add : List IpPrefix → IpAddr → ℕ → List IpPrefix
ip_prefix_list_add head net prefix_len =
    head ++ record { prefix = net; prefix_len = prefix_len } ∷ []

unfoldable pub is_entry : IpVersion → IpAddr → ℕ → IpPrefix → Bool
is_entry version net prefix_len h = ipcmp_zero version net h.prefix && h.prefix_len == prefix_len

-- The list and the result.
unfoldable pub ip_prefix_list_remove : List IpPrefix → IpAddr → ℕ → IpVersion → List IpPrefix × ℕ
ip_prefix_list_remove [] net prefix_len version = ([], 0)
ip_prefix_list_remove (h ∷ hs) net prefix_len version =
    let rest = ip_prefix_list_remove hs net prefix_len version in
    if is_entry version net prefix_len h then (hs, 1) else (h ∷ rest.0, rest.1)

unfoldable pub ip_prefix_list_find : List IpPrefix → IpAddr → ℕ → IpVersion → Option IpPrefix
ip_prefix_list_find [] net prefix_len version = none
ip_prefix_list_find (h ∷ hs) net prefix_len version =
    let rest = ip_prefix_list_find hs net prefix_len version in
    if is_entry version net prefix_len h then some h else rest

unfoldable pub ip_prefix_list_flush : List IpPrefix → List IpPrefix
ip_prefix_list_flush head = []

pub record IpAcl : Type 0 where
  pub accept : List IpPrefix
  pub reject : List IpPrefix
  pub first_accept : Bool
  pub default_accept : Bool

unfoldable pub ip_acl_init : IpAcl
ip_acl_init = record { accept = []; reject = []; first_accept = false; default_accept = false }

unfoldable pub ip_acl_flush : IpAcl → IpAcl
ip_acl_flush acl = record acl {
  accept = ip_prefix_list_flush acl.accept;
  reject = ip_prefix_list_flush acl.reject;
}

unfoldable pub ip_acl_add : IpAcl → IpAddr → ℕ → Bool → IpAcl
ip_acl_add acl net prefix_len true = record acl {
  reject = ip_prefix_list_add acl.reject net prefix_len;
}
ip_acl_add acl net prefix_len false = record acl {
  accept = ip_prefix_list_add acl.accept net prefix_len;
}

unfoldable pub ip_acl_remove : IpAcl → IpAddr → ℕ → Bool → IpVersion → IpAcl
ip_acl_remove acl net prefix_len true version = record acl {
  reject = (ip_prefix_list_remove acl.reject net prefix_len version).0;
}
ip_acl_remove acl net prefix_len false version = record acl {
  accept = (ip_prefix_list_remove acl.accept net prefix_len version).0;
}

-- A loop of `ip_acl_acceptable`: whether the address is in the net of an entry.
unfoldable pub in_some_net : List IpPrefix → IpAddr → IpVersion → Option Bool
in_some_net [] ip version = some false
in_some_net (entry ∷ entries) ip version =
    let rest = in_some_net entries ip version in
    elim (ip_in_net ip entry version) [
      | none ↦ none
      | some found ↦ if found then some true else rest
    ]

unfoldable pub ip_acl_acceptable : IpAcl → IpAddr → IpVersion → Option Bool
ip_acl_acceptable acl ip version =
    let first = if acl.first_accept then acl.accept else acl.reject in
    let second = if acl.first_accept then acl.reject else acl.accept in
    elim (in_some_net first ip version) [
      | none ↦ none
      | some true ↦ some acl.first_accept
      | some false ↦ elim (in_some_net second ip version) [
        | none ↦ none
        | some true ↦ some (not acl.first_accept)
        | some false ↦ some acl.default_accept
      ]
    ]
