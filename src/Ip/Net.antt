-- ===== src/Ip/Net.antt =====
-- `ip_in_net` compares the leading bits of the two addresses.
use olsr.Prelude.{
  ℕ, ◌+◌, ◌-◌, ◌*◌, ◌^◌, ◌≤◌, ◌<◌, ◌≡◌, refl, bit_and, ltb, leb, ◌==◌, if◌then◌else◌, Bool, true,
  false, some, [], ◌∷◌, length, All, ◌↔◌, arith, ==_iff, Bool-cases, inl, inr,
}
use olsr.Prelude.Bits.{test_bit, test_bit-shift, test_bit-zero}
use olsr.Prelude.Words.{test_bit-bit_and, bit_and-lt, test_bit-ext}
use olsr.Prelude.Finite.{check_below, check_below_lem}
use olsr.Clock.{u32}
use olsr.Ip.{
  IpVersion, af_inet, af_inet6, IpAddr, IpPrefix, prefix_to_netmask4, same_masked, in_net6, in_net4,
  ip_in_net,
}

-- Bit `k` of an address, counted from the first one.
unfoldable pub bit_at : IpAddr → ℕ → Bool
bit_at [] k = false
bit_at (w ∷ ws) k = if ltb k 32 then test_bit w (31 - k) else bit_at ws (k - 32)

all_ones : (k : ℕ) → k < 32 → test_bit 0xffff_ffff k ≡ true
unfolding check_below test_bit
all_ones k lt = check_below_lem 32 (λ k. test_bit 0xffff_ffff k) k refl lt

-- The netmask of a prefix length: its leading bits are set.
netmask_bits :
    (p : ℕ)
    → p ≤ 32
    → (m : ℕ) × (prefix_to_netmask4 p ≡ some m) × ((k : ℕ) → k < 32 → test_bit m k ≡ leb (32 - p) k)
unfolding prefix_to_netmask4
netmask_bits p le = elim (Bool-cases (p == 0)) [
  | inl h ↦ (0, ground arith, λ k lt. ground (arith, test_bit-zero k))
  | inr h ↦ (
    u32 (0xffff_ffff * 2 ^ (32 - p)),
    ground arith,
    λ k lt. ground (arith, test_bit-shift 0xffff_ffff (32 - p) 32 k lt, all_ones (k - (32 - p))),
  )
]

-- Two words agree under the mask exactly if their leading bits do.
pub same_masked_iff :
    (i n p : ℕ)
    → i < 2 ^ 32
    → n < 2 ^ 32
    → p ≤ 32
    → (b : Bool) × (same_masked i n p ≡ some b)
      × ((b ≡ true) ↔ ((k : ℕ) → k < p → test_bit i (31 - k) ≡ test_bit n (31 - k)))
unfolding same_masked
same_masked_iff i n p hi hn le =
    let (m, mask, bits) = netmask_bits p le in
    (
      bit_and i m == bit_and n m,
      rw (mask, same_masked) refl,
      (
        (λ same k lt.
            let words : bit_and i m ≡ bit_and n m = ground arith in
            ground (
              arith,
              test_bit-bit_and i m (31 - k),
              test_bit-bit_and n m (31 - k),
              words,
              bits (31 - k),
            )),
        (λ same. (==_iff _ _).1 (
            test_bit-ext 32 _ _ (bit_and-lt 32 i m hi) (bit_and-lt 32 n m hn) (λ k lt.
              ground (
                arith,
                test_bit-bit_and i m k,
                test_bit-bit_and n m k,
                bits k lt,
                same (31 - k),
              )))),
      ),
    )

-- `ip_in_net` says whether the first `p` bits of two addresses agree.
unfoldable pub AgreesOn : ℕ → IpAddr → IpAddr → Type 0
AgreesOn p ip net = (k : ℕ) → k < p → bit_at ip k ≡ bit_at net k

bit_at-further : (w : ℕ) (ws : IpAddr) (k : ℕ) → bit_at (w ∷ ws) (k + 32) ≡ bit_at ws k
unfolding bit_at
bit_at-further w ws k = let back : k + 32 - 32 ≡ k = omega arith in rw back (ground arith)

same_bit :
    (i n : ℕ) (is ns : IpAddr) (p k : ℕ)
    → AgreesOn p (i ∷ is) (n ∷ ns)
    → k < 32
    → 32 < p
    → test_bit i k ≡ test_bit n k
unfolding AgreesOn bit_at
same_bit i n is ns p k h lt more =
    let back : 31 - (31 - k) ≡ k = omega arith in ground (arith, h (31 - k), back)

in_net6_iff :
    (is ns : IpAddr) (p : ℕ)
    → All (λ w. w < 2 ^ 32) is
    → All (λ w. w < 2 ^ 32) ns
    → length is ≡ length ns
    → 0 < length is
    → p ≤ length is * 32
    → (b : Bool) × (in_net6 is ns p ≡ some b) × ((b ≡ true) ↔ AgreesOn p is ns)
unfolding in_net6 bit_at AgreesOn
in_net6_iff [] ns p hi hn same some_words fits = absurd (omega arith)
in_net6_iff (i ∷ is) [] p hi hn same some_words fits = absurd (omega arith)
in_net6_iff (i ∷ is) (n ∷ ns) p hi hn same some_words fits = elim (Bool-cases (ltb 32 p)) [
  | inr last ↦
      let (b, runs, iff) = same_masked_iff i n p hi.0 hn.0 (ground arith) in
      (
        b,
        rw (last, in_net6) runs,
        ((λ h k lt. ground (arith, iff.0 h k lt)), (λ h. iff.1 (λ k lt. ground (arith, h k lt)))),
      )
  | inl more ↦ elim (Bool-cases (i == n)) [
    | inl equal ↦
        let (b, runs, iff) =
          in_net6_iff is ns (p - 32) hi.1 hn.1 (omega arith) (ground arith) (ground arith) in
        (
          b,
          rw (more, equal, in_net6) runs,
          (
            (λ h k lt. ground (arith, iff.0 h (k - 32))),
            (λ h.
                iff.1 (λ k lt.
                  ground (arith, h (k + 32), bit_at-further i is k, bit_at-further n ns k))),
          ),
        )
    | inr differ ↦ (
      false,
      rw (more, differ, in_net6) refl,
      (
        (λ h. cc),
        (λ h.
            let equal : i ≡ n =
              test_bit-ext 32 i n hi.0 hn.0 λ k lt. same_bit i n is ns p k h lt (ground arith) in
            ground arith),
      ),
    )
  ]
]

in_net4_iff :
    (is ns : IpAddr) (p : ℕ)
    → All (λ w. w < 2 ^ 32) is
    → All (λ w. w < 2 ^ 32) ns
    → 0 < length is
    → 0 < length ns
    → p ≤ 32
    → (b : Bool) × (in_net4 is ns p ≡ some b) × ((b ≡ true) ↔ AgreesOn p is ns)
unfolding in_net4 bit_at AgreesOn
in_net4_iff [] ns p hi hn li ln fits = absurd (omega arith)
in_net4_iff (i ∷ is) [] p hi hn li ln fits = absurd (omega arith)
in_net4_iff (i ∷ is) (n ∷ ns) p hi hn li ln fits =
    let (b, runs, iff) = same_masked_iff i n p hi.0 hn.0 fits in
    (
      b,
      runs,
      ((λ h k lt. ground (arith, iff.0 h k lt)), (λ h. iff.1 (λ k lt. ground (arith, h k lt)))),
    )

-- An address of the version: one word, or four; and a prefix length for it.
unfoldable pub bits_of : IpVersion → ℕ
bits_of af_inet = 32
bits_of af_inet6 = 128

abbrev pub IsAddr : IpAddr → Type 0
IsAddr ws = All (λ w. w < 2 ^ 32) ws × (length ws ≡ 4)

-- For two addresses of four words and a prefix length that its IP version allows, `ip_in_net` is
-- defined, and says yes exactly if the leading bits of the address and of the prefix, as many as the
-- prefix length says, are the same.
pub ip_in_net_iff :
    (ipaddr : IpAddr) (net : IpPrefix) (version : IpVersion)
    → IsAddr ipaddr
    → IsAddr net.prefix
    → net.prefix_len ≤ bits_of version
    → (b : Bool) × (ip_in_net ipaddr net version ≡ some b)
      × ((b ≡ true) ↔ AgreesOn net.prefix_len ipaddr net.prefix)
unfolding ip_in_net bits_of
ip_in_net_iff ip net af_inet (hi, li) (hn, ln) fits =
    in_net4_iff ip net.prefix net.prefix_len hi hn (omega arith) (omega arith) fits
ip_in_net_iff ip net af_inet6 (hi, li) (hn, ln) fits =
    in_net6_iff ip net.prefix net.prefix_len hi hn (omega arith) (omega arith) (omega arith)
