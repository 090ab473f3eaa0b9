-- ===== src/Route/Compare.antt =====
-- `olsr_cmp_rtp` and the election of the best path in `olsr_rt_best` of src/routing_table.c.
use olsr.Prelude.{
  ℕ, ◌≡◌, refl, inl, inr, Bool, true, false, ltb, if◌then◌else◌, Bool-cases, List, [], ◌∷◌, Option,
  none, some, All, arith,
}
use olsr.Route.{RtPath, RtConfig, nat_cost, cmp_rtp, cmp_rtp_opt, best_loop}

-- A path is preferred to another if it costs less, or as much with fewer hops, or as much with as
-- many hops and a smaller origin code.
unfoldable pub prefers : RtConfig → Option ℕ → RtPath → RtPath → Bool
prefers cfg inetgw rtp1 rtp2 =
    let etx1 = nat_cost cfg inetgw rtp1 in
    let etx2 = nat_cost cfg inetgw rtp2 in
    if ltb etx1 etx2
    then true
    else if ltb etx2 etx1
    then false
    else if ltb rtp1.hops rtp2.hops
    then true
    else if ltb rtp2.hops rtp1.hops
    then false
    else ltb rtp1.origin rtp2.origin

module _ (cfg : RtConfig) (inetgw : Option ℕ) where
  cmp_rtp-prefers : (p b : RtPath) → cmp_rtp cfg inetgw p b ≡ true → prefers cfg inetgw b p ≡ false
  unfolding cmp_rtp prefers
  cmp_rtp-prefers p b h = ground (arith, h)

  prefers-cmp_rtp : (p b : RtPath) → cmp_rtp cfg inetgw p b ≡ false → prefers cfg inetgw p b ≡ false
  unfolding cmp_rtp prefers
  prefers-cmp_rtp p b h = ground (arith, h)

  prefers_irrefl : (p : RtPath) → prefers cfg inetgw p p ≡ false
  unfolding prefers
  prefers_irrefl p = ground arith

  prefers_trans :
      (q b p : RtPath)
      → prefers cfg inetgw q b ≡ false
      → prefers cfg inetgw b p ≡ false
      → prefers cfg inetgw q p ≡ false
  unfolding prefers
  prefers_trans q b p h k = ground (arith, h, k)

  best_loop-Preferred {κ} :
      (P : RtPath → Type κ) (b : RtPath) (ps : List RtPath)
      → P b
      → All P ps
      → (best : RtPath) × (best_loop cfg inetgw (some b) ps ≡ some best)
        × P best
        × (prefers cfg inetgw b best ≡ false)
        × All (λ q. prefers cfg inetgw q best ≡ false) ps
  unfolding best_loop cmp_rtp_opt
  best_loop-Preferred P b [] here all = (b, refl, here, prefers_irrefl b, tt)
  best_loop-Preferred P b (p ∷ more) here all = elim (Bool-cases (cmp_rtp cfg inetgw p b)) [
    | inl better ↦
        let (best, run, holds, least, rest) = best_loop-Preferred P p more all.0 all.1 in
        (
          best,
          rw better run,
          holds,
          prefers_trans b p best (cmp_rtp-prefers p b better) least,
          (least, rest),
        )
    | inr worse ↦
        let (best, run, holds, least, rest) = best_loop-Preferred P b more here all.1 in
        (
          best,
          rw worse run,
          holds,
          least,
          (prefers_trans p b best (prefers-cmp_rtp p b worse) least, rest),
        )
  ]

  -- The election among paths, where none is known before.
  pub best_loop_lem {κ} :
      (P : RtPath → Type κ) (p : RtPath) (ps : List RtPath)
      → All P (p ∷ ps)
      → (best : RtPath) × (best_loop cfg inetgw none (p ∷ ps) ≡ some best)
        × P best
        × All (λ q. prefers cfg inetgw q best ≡ false) (p ∷ ps)
  unfolding best_loop cmp_rtp_opt
  best_loop_lem P p ps all =
      let (best, run, holds, least, rest) = best_loop-Preferred P p ps all.0 all.1 in
      (best, run, holds, (least, rest))
