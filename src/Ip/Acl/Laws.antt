-- ===== src/Ip/Acl/Laws.antt =====
-- What an access list accepts, and that removing a prefix undoes adding it.
use olsr.Prelude.{
  ℕ, ◌≤◌, ◌≡◌, refl, if◌then◌else◌, Bool, true, false, none, some, List, [], ◌∷◌, All, ◌⊎◌, inl,
  inr, ◌↔◌, arith, ==_refl, Bool-cases,
}
use olsr.Ip.{IpVersion, af_inet, af_inet6, IpAddr, IpPrefix}
use olsr.Ip.Net.{AgreesOn, IsAddr, bits_of, ip_in_net_iff}
use olsr.Ip.Acl.{
  IpAcl, in_some_net, ip_acl_acceptable, ip_prefix_list_add, ip_prefix_list_remove,
  ip_prefix_list_find, is_entry, ipcmp_zero, same_words, first_word,
}

-- An entry that fits the IP version.
abbrev pub IsPrefix : IpVersion → IpPrefix → Type 0
IsPrefix version net = IsAddr net.prefix × (net.prefix_len ≤ bits_of version)

-- The address is in the net of some entry: it has the leading bits of its prefix.
abbrev pub InSome : IpAddr → List IpPrefix → Type 0
InSome ip [] = ⊥
InSome ip (e ∷ es) = AgreesOn e.prefix_len ip e.prefix ⊎ InSome ip es

if_some : (b rest : Bool) → (if b then some true else some rest) ≡ some (if b then true else rest)
if_some true rest = refl
if_some false rest = refl

either_iff {ℓ κ} :
    {P : Type ℓ} {Q : Type κ} (b rest : Bool)
    → ((b ≡ true) ↔ P)
    → ((rest ≡ true) ↔ Q)
    → ((if b then true else rest) ≡ true) ↔ (P ⊎ Q)
either_iff true rest p q = ((λ h. inl (p.0 refl)), λ h. refl)
either_iff false rest p q =
    ((λ h. inr (q.0 h)), (λ h. elim h [ inl x ↦ cc (p.1 x) | inr y ↦ q.1 y ]))

module _ (version : IpVersion) (ip : IpAddr) (addr : IsAddr ip) where
  in_some_net_iff :
      (es : List IpPrefix)
      → All (IsPrefix version) es
      → (b : Bool) × (in_some_net es ip version ≡ some b) × ((b ≡ true) ↔ InSome ip es)
  unfolding in_some_net
  in_some_net_iff [] v = (false, refl, ((λ h. cc), λ h. absurd h))
  in_some_net_iff (e ∷ es) v =
      let (rest, later, iff_rest) = in_some_net_iff es v.1 in
      let (b, found, iff) = ip_in_net_iff ip e version addr v.0.0 v.0.1 in
      (
        if b then true else rest,
        rw (found, in_some_net, later) (if_some b rest),
        either_iff b rest iff iff_rest,
      )

  -- For entries that fit the IP version, `ip_acl_acceptable` is defined. With `first_accept` it
  -- accepts an address exactly if it is in a net of the accept list, or in none of the reject list
  -- while the default is to accept; without, exactly if it is in no net of the reject list, and in
  -- one of the accept list or the default is to accept.
  pub ip_acl_acceptable_iff :
      (acl : IpAcl)
      → All (IsPrefix version) acl.accept
      → All (IsPrefix version) acl.reject
      → (b : Bool) × (ip_acl_acceptable acl ip version ≡ some b)
        × ((b ≡ true) ↔ (
            (acl.first_accept ≡ true
              × (InSome ip acl.accept ⊎ (¬ InSome ip acl.reject × (acl.default_accept ≡ true))))
            ⊎ (acl.first_accept ≡ false
                × (¬ InSome ip acl.reject)
                × (InSome ip acl.accept ⊎ (acl.default_accept ≡ true)))))
  unfolding ip_acl_acceptable
  ip_acl_acceptable_iff acl va vr =
      let (a, accepts, iff_a) = in_some_net_iff acl.accept va in
      let (r, rejects, iff_r) = in_some_net_iff acl.reject vr in
      elim (Bool-cases acl.first_accept) [
        | inl first ↦ (
          if a then true else if r then false else acl.default_accept,
          ground arith,
          ground (arith, iff_a.0, iff_a.1, iff_r.0, iff_r.1),
        )
        | inr first ↦ (
          if r then false else if a then true else acl.default_accept,
          ground arith,
          ground (arith, iff_a.0, iff_a.1, iff_r.0, iff_r.1),
        )
      ]

same_words_refl : (a : IpAddr) → same_words a a ≡ true
unfolding same_words
same_words_refl [] = refl
same_words_refl (w ∷ ws) = ground (arith, ==_refl w, same_words_refl ws)

ipcmp_zero_refl : (version : IpVersion) (a : IpAddr) → ipcmp_zero version a a ≡ true
unfolding ipcmp_zero first_word
ipcmp_zero_refl af_inet [] = refl
ipcmp_zero_refl af_inet (w ∷ ws) = ==_refl w
ipcmp_zero_refl af_inet6 a = same_words_refl a

-- A prefix that the list does not hold is found once it has been added, and removing it then gives
-- the list back; removing one that the list does not hold changes nothing. The result of the removal
-- says which of the two it was.
pub ip_prefix_list_remove-ip_prefix_list_add :
    (head : List IpPrefix) (net : IpAddr) (prefix_len : ℕ) (version : IpVersion)
    → ip_prefix_list_find head net prefix_len version ≡ none
    → (ip_prefix_list_find (ip_prefix_list_add head net prefix_len) net prefix_len version
        ≡ some (record { prefix = net; prefix_len = prefix_len }))
      × (ip_prefix_list_remove (ip_prefix_list_add head net prefix_len) net prefix_len version
          ≡ (head, 1))
      × (ip_prefix_list_remove head net prefix_len version ≡ (head, 0))
unfolding ip_prefix_list_find ip_prefix_list_add ip_prefix_list_remove is_entry
ip_prefix_list_remove-ip_prefix_list_add [] net p version absent =
    ground (arith, ipcmp_zero_refl version net, ==_refl p)
ip_prefix_list_remove-ip_prefix_list_add (h ∷ hs) net p version absent =
    ground (arith, ip_prefix_list_remove-ip_prefix_list_add hs net p version)
