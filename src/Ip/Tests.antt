-- ===== src/Ip/Tests.antt =====
-- Netmasks, prefixes and access lists at concrete addresses, and the theorems there.
use olsr.Prelude.{◌≡◌, ◌↔◌, ◌⊎◌, refl, arith, true, false, Bool, none, some, [], ◌∷◌}
use olsr.Ip.{
  af_inet, IpAddr, IpPrefix, prefix_to_netmask, netmask_to_prefix, netmask_loop, last_byte,
  prefix_to_netmask4, same_masked, in_net4, ip_in_net,
}
use olsr.Ip.Net.{AgreesOn, IsAddr, bits_of, ip_in_net_iff}
use olsr.Ip.Netmask.{netmask_to_prefix-prefix_to_netmask}
use olsr.Ip.Acl.{
  IpAcl, ip_acl_acceptable, in_some_net, ip_prefix_list_find, is_entry, ipcmp_zero, first_word,
}
use olsr.Ip.Acl.Laws.{IsPrefix, InSome, ip_acl_acceptable_iff}

mask_of_20 : prefix_to_netmask 4 20 ≡ (255 ∷ 255 ∷ 240 ∷ 0 ∷ [], true)
unfolding prefix_to_netmask
mask_of_20 = refl

bogus_mask : netmask_to_prefix (255 ∷ 7 ∷ 0 ∷ 0 ∷ []) ≡ 32
unfolding netmask_to_prefix netmask_loop last_byte
bogus_mask = refl

-- 10.1.2.3, 10.1.0.0/16 and 10.1.2.0/24.
abbrev host : IpAddr
host = 0x0a01_0203 ∷ 0 ∷ 0 ∷ 0 ∷ []

abbrev wide : IpPrefix
wide = record { prefix = 0x0a01_0000 ∷ 0 ∷ 0 ∷ 0 ∷ []; prefix_len = 16 }

abbrev narrow : IpPrefix
narrow = record { prefix = 0x0a01_0200 ∷ 0 ∷ 0 ∷ 0 ∷ []; prefix_len = 24 }

host_in_wide : ip_in_net host wide af_inet ≡ some true
unfolding ip_in_net in_net4 same_masked prefix_to_netmask4
host_in_wide = refl

abbrev acl : IpAcl
acl = record {
  accept = narrow ∷ [];
  reject = wide ∷ [];
  first_accept = true;
  default_accept = false;
}

acceptable_host : ip_acl_acceptable acl host af_inet ≡ some true
unfolding ip_acl_acceptable in_some_net ip_in_net in_net4 same_masked prefix_to_netmask4
acceptable_host = refl

host-IsAddr : IsAddr host
host-IsAddr = ((omega arith, (omega arith, (omega arith, (omega arith, tt)))), refl)

wide-IsPrefix : IsPrefix af_inet wide
unfolding bits_of
wide-IsPrefix =
    (((omega arith, (omega arith, (omega arith, (omega arith, tt)))), refl), omega arith)

narrow-IsPrefix : IsPrefix af_inet narrow
unfolding bits_of
narrow-IsPrefix =
    (((omega arith, (omega arith, (omega arith, (omega arith, tt)))), refl), omega arith)

netmask_to_prefix-prefix_to_netmask_example :
    ((prefix_to_netmask 16 61).1 ≡ true) × (netmask_to_prefix (prefix_to_netmask 16 61).0 ≡ 61)
netmask_to_prefix-prefix_to_netmask_example =
    netmask_to_prefix-prefix_to_netmask 16 61 (omega arith) (omega arith)

ip_in_net_iff_example :
    (b : Bool) × (ip_in_net host wide af_inet ≡ some b)
    × ((b ≡ true) ↔ AgreesOn 16 host wide.prefix)
ip_in_net_iff_example = ip_in_net_iff host wide af_inet host-IsAddr wide-IsPrefix.0 wide-IsPrefix.1

ip_acl_acceptable_iff_example :
    (b : Bool) × (ip_acl_acceptable acl host af_inet ≡ some b)
    × ((b ≡ true) ↔ (
        (acl.first_accept ≡ true
          × (InSome host acl.accept ⊎ (¬ InSome host acl.reject × (acl.default_accept ≡ true))))
        ⊎ (acl.first_accept ≡ false
            × (¬ InSome host acl.reject)
            × (InSome host acl.accept ⊎ (acl.default_accept ≡ true)))))
ip_acl_acceptable_iff_example =
    ip_acl_acceptable_iff af_inet host host-IsAddr acl (narrow-IsPrefix, tt) (wide-IsPrefix, tt)

narrow_absent : ip_prefix_list_find (wide ∷ []) narrow.prefix 24 af_inet ≡ none
unfolding ip_prefix_list_find is_entry ipcmp_zero first_word
narrow_absent = refl
