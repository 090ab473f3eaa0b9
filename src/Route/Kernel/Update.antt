-- ===== src/Route/Kernel/Update.antt =====
-- The loop of olsr_update_rib_routes in src/process_routes.c over all entries.
use olsr.Prelude.{
  ℕ, ◌≡◌, inl, inr, Bool, true, false, not, ◌&&◌, ◌||◌, ◌==◌, Bool-cases, if_rule, if_cases, ◌⊎◌,
  Option, none, some, arith, List, [], ◌∷◌, ◌∙◌, All,
}
use olsr.Spf.Nodes.{mem}
use olsr.Route.{Nexthop, RtPath, RtEntry, RtConfig, find_path}
use olsr.Route.Compare.{prefers}
use olsr.Route.Kernel.{delete_outdated}
use olsr.Route.Kernel.Reliable.{dsts}
use olsr.Route.Kernel.Tree.{
  is_current, ids, ids-delete_outdated, current_before, find_path-before, find_path-after,
}
use olsr.Route.Kernel.Election.{IsGateway, before, default, IsBest, NoneCurrent}

-- What holds of the paths that hang in a tree holds of those that are left.
pub delete_outdated-All :
    (Q : RtPath → Type 0) (version dst : ℕ) (ps : List RtPath)
    → All (λ p. p.rtp_rt ≡ true → Q p) ps
    → All (λ p. p.rtp_rt ≡ true → Q p) (delete_outdated version dst ps)
unfolding delete_outdated
delete_outdated-All Q version dst [] all = tt
delete_outdated-All Q version dst (p ∷ ps) (here, rest) = (
  if_rule (λ x. x.rtp_rt ≡ true → Q x) (p.rtp_rt && p.dst == dst && not (version == p.version))
      (record p { rtp_rt = false }) p (λ h. absurd (ground (arith, h))) here,
  delete_outdated-All Q version dst ps rest,
)

-- A path that hangs in a tree behind the deletion has the version.
delete_outdated_swept :
    (version dst : ℕ) (ps : List RtPath)
    → All
        (λ p. p.rtp_rt ≡ true → (p.dst == dst) ≡ true → (version == p.version) ≡ true)
        (delete_outdated version dst ps)
unfolding delete_outdated
delete_outdated_swept version dst [] = tt
delete_outdated_swept version dst (p ∷ ps) = (
  if_cases (λ x. x.rtp_rt ≡ true → (x.dst == dst) ≡ true → (version == x.version) ≡ true)
      (p.rtp_rt && p.dst == dst && not (version == p.version)) (record p { rtp_rt = false }) p
      (λ old h. absurd (ground (arith, h))) (λ same h at. ground (arith, same, h, at)),
  delete_outdated_swept version dst ps,
)

IsGateway-before :
    {version : ℕ} {start : Option ℕ} {ps : List RtPath} {inetgw : Option ℕ} (other : ℕ)
    → IsGateway version start (delete_outdated version other ps) inetgw
    → IsGateway version start ps inetgw
IsGateway-before other (before same) = before same
IsGateway-before {version} {start} {ps} other (default dst b zero at same) =
    default dst b zero (find_path-before version other ps b (ground (arith, at.1)) at.0, at.1) same

pub IsGateway-after :
    {version : ℕ} {start : Option ℕ} {ps : List RtPath} {inetgw : Option ℕ} (other : ℕ)
    → IsGateway version start ps inetgw
    → IsGateway version start (delete_outdated version other ps) inetgw
IsGateway-after other (before same) = before same
IsGateway-after {version} {start} {ps} other (default dst b zero at same) =
    default dst b zero (find_path-after version dst other ps b at.1 at.0, at.1) same

IsBest-before :
    {cfg : RtConfig} {version : ℕ} {start : Option ℕ} {dst : ℕ} {ps : List RtPath} {b : RtPath}
    (other : ℕ)
    → IsBest cfg version start dst (delete_outdated version other ps) b
    → IsBest cfg version start dst ps b
IsBest-before {cfg} {version} {start} {dst} {ps} {b} other best = record {
  inetgw = best.inetgw;
  gateway = IsGateway-before other best.gateway;
  at = (find_path-before version other ps b (ground (arith, best.at.1)) best.at.0, best.at.1);
  least = current_before (λ q. prefers cfg best.inetgw q b ≡ false) version dst other ps best.least;
}

-- What becomes of the entry of a prefix, of its route in the kernel and of its place in the queue.
pub data Outcome (cfg : RtConfig) (version : ℕ) (start : Option ℕ) (ps : List RtPath) (dst : ℕ)
    (old new : Option RtEntry) (before after : Option Nexthop) (queued queued' : Bool)
    : Type 0 where
  absent :
      old ≡ none
      → new ≡ none
      → after ≡ before
      → queued' ≡ queued
      → Outcome cfg version start ps dst old new before after queued queued'
  gone :
      (rt : RtEntry)
      → old ≡ some rt
      → NoneCurrent version dst ps
      → new ≡ none
      → after ≡ none
      → queued' ≡ queued
      → Outcome cfg version start ps dst old new before after queued queued'
  elected :
      (rt : RtEntry) (b : RtPath)
      → old ≡ some rt
      → IsBest cfg version start dst ps b
      → new ≡ some (record rt { best = some b.id })
      → after ≡ before
      → (queued' ≡ true) ⊎ ((rt.nexthop ≡ b.nexthop) × (queued' ≡ queued))
      → Outcome cfg version start ps dst old new before after queued queued'

pub Outcome-before :
    {cfg : RtConfig} {version : ℕ} {start : Option ℕ} {dst : ℕ} {ps : List RtPath}
    {old new : Option RtEntry} {before after : Option Nexthop} {queued queued' : Bool} (other : ℕ)
    → Outcome cfg version start
        (delete_outdated version other ps)
        dst
        old
        new
        before
        after
        queued
        queued'
    → Outcome cfg version start ps dst old new before after queued queued'
Outcome-before other (absent o n f q) = absent o n f q
Outcome-before {version = version} {dst = dst} {ps = ps} other (gone rt o empty n f q) =
    gone rt o (current_before (λ q. ⊥) version dst other ps empty) n f q
Outcome-before other (elected rt b o best n f q) = elected rt b o (IsBest-before other best) n f q

-- What the loop leaves of the paths.
pub record PathsKept (version : ℕ) (entries : List RtEntry) (ps ps' : List RtPath) : Type 1 where
  pub found :
      (dst : ℕ) (b : RtPath)
      → is_current version dst b ≡ true
      → find_path b.id ps ≡ some b
      → find_path b.id ps' ≡ some b
  pub carried :
      (Q : RtPath → Type 0)
      → All (λ p. p.rtp_rt ≡ true → Q p) ps
      → All (λ p. p.rtp_rt ≡ true → Q p) ps'
  pub swept :
      All
        (λ p. p.rtp_rt ≡ true → mem p.dst (dsts entries) ≡ true → (version == p.version) ≡ true)
        ps'
  pub same_ids : ids ps' ≡ ids ps

pub All-both :
    (P Q R : RtPath → Type 0) (ps : List RtPath)
    → ((p : RtPath) → P p → Q p → R p)
    → All P ps
    → All Q ps
    → All R ps
All-both P Q R [] f a b = tt
All-both P Q R (p ∷ ps) f a b = (f p a.0 b.0, All-both P Q R ps f a.1 b.1)

pub PathsKept-step :
    (version : ℕ) (rt : RtEntry) (more : List RtEntry) (ps ps' : List RtPath)
    → PathsKept version more (delete_outdated version rt.dst ps) ps'
    → PathsKept version (rt ∷ more) ps ps'
unfolding mem
PathsKept-step version rt more ps ps' kept = record {
  found = λ dst b now at. kept.found dst b now (find_path-after version dst rt.dst ps b now at);
  carried = λ Q all. kept.carried Q (delete_outdated-All Q version rt.dst ps all);
  swept =
      All-both (λ p. p.rtp_rt ≡ true → (p.dst == rt.dst) ≡ true → (version == p.version) ≡ true)
        (λ p. p.rtp_rt ≡ true → mem p.dst (dsts more) ≡ true → (version == p.version) ≡ true)
        (λ p.
          p.rtp_rt ≡ true
          → (p.dst == rt.dst || mem p.dst (dsts more)) ≡ true
          → (version == p.version) ≡ true)
        ps'
        (λ p here later r m. elim (Bool-cases (p.dst == rt.dst)) [
          | inl at ↦ here r at
          | inr on ↦ later r (ground (arith, m, on))
        ])
        (kept.carried (λ p. (p.dst == rt.dst) ≡ true → (version == p.version) ≡ true)
          (delete_outdated_swept version rt.dst ps))
        kept.swept;
  same_ids = kept.same_ids ∙ ids-delete_outdated version rt.dst ps;
}
