-- ===== src/Route/Kernel/Tree.antt =====
-- The path tree of an entry of src/routing_table.c behind olsr_delete_outdated_routes.
use olsr.Prelude.{
  ℕ, ◌≡◌, refl, sym, subst, ap, ◌∙◌, inl, inr, Bool, true, false, not, ◌&&◌, ◌==◌, if◌then◌else◌,
  Bool-cases, if_cases, List, [], ◌∷◌, some, All, arith,
}
use olsr.Spf.Nodes.{mem, IsNodup}
use olsr.Route.{RtPath, find_path, path_tree}
use olsr.Route.Kernel.{outdate, delete_outdated}

-- A path of the route entry of a prefix that the last computation has reached.
abbrev pub is_current : ℕ → ℕ → RtPath → Bool
is_current version dst p = p.rtp_rt && p.dst == dst && version == p.version

abbrev pub ids : List RtPath → List ℕ
ids [] = []
ids (p ∷ ps) = p.id ∷ ids ps

outdate_keeps :
    (version dst : ℕ) (p : RtPath)
    → ((outdate version dst p).id ≡ p.id) × ((outdate version dst p).dst ≡ p.dst)
outdate_keeps version dst p =
    elim (Bool-cases (p.rtp_rt && p.dst == dst && not (version == p.version))) [
      | inl old ↦ (rw old refl, rw old refl)
      | inr same ↦ (rw same refl, rw same refl)
    ]

outdate_current :
    (version dst other : ℕ) (p : RtPath)
    → is_current version dst p ≡ true
    → outdate version other p ≡ p
outdate_current version dst other p h =
    let same : (p.rtp_rt && p.dst == other && not (version == p.version)) ≡ false =
      ground (arith, h) in
    rw same refl

outdated_current :
    (version dst other : ℕ) (p : RtPath)
    → is_current version dst (outdate version other p) ≡ is_current version dst p
outdated_current version dst other p =
    elim (Bool-cases (p.rtp_rt && p.dst == other && not (version == p.version))) [
      | inl old ↦ rw old (ground (arith, old))
      | inr same ↦ rw same refl
    ]

-- What hangs in the tree of its prefix behind the deletion is what is current.
outdated_in_tree :
    (version dst : ℕ) (p : RtPath)
    → ((outdate version dst p).rtp_rt && (outdate version dst p).dst == dst)
      ≡ is_current version dst p
outdated_in_tree version dst p =
    elim (Bool-cases (p.rtp_rt && p.dst == dst && not (version == p.version))) [
      | inl old ↦ rw old (ground (arith, old))
      | inr same ↦ rw same (ground (arith, same))
    ]

path_tree_step :
    (version dst : ℕ) (p : RtPath) (ps : List RtPath)
    → path_tree dst (delete_outdated version dst (p ∷ ps)) ≡ (
        if is_current version dst p
        then p ∷ path_tree dst (delete_outdated version dst ps)
        else path_tree dst (delete_outdated version dst ps))
unfolding path_tree delete_outdated
path_tree_step version dst p ps = elim (Bool-cases (is_current version dst p)) [
  | inl now ↦
      let kept = outdate_current version dst dst p now in
      let in_tree = outdated_in_tree version dst p in
      rw (in_tree, now) (ap (λ x. x ∷ path_tree dst (delete_outdated version dst ps)) kept)
  | inr old ↦ rw (outdated_in_tree version dst p, old) refl
]

pub ids-delete_outdated :
    (version dst : ℕ) (ps : List RtPath) → ids (delete_outdated version dst ps) ≡ ids ps
unfolding delete_outdated
ids-delete_outdated version dst [] = refl
ids-delete_outdated version dst (p ∷ ps) =
    let kept = (outdate_keeps version dst p).0 in rw (kept, ids-delete_outdated version dst ps) refl

find_path-mem :
    (id : ℕ) (ps : List RtPath) (b : RtPath) → find_path id ps ≡ some b → mem id (ids ps) ≡ true
unfolding find_path mem
find_path-mem id [] b h = cc
find_path-mem id (p ∷ ps) b h = ground (arith, h, find_path-mem id ps b)

-- A path is where its pointer leads, and it is current.
abbrev pub IsAt : ℕ → ℕ → List RtPath → RtPath → Type 0
IsAt version dst ps b = (find_path b.id ps ≡ some b) × (is_current version dst b ≡ true)

IsAt-behind :
    (version dst : ℕ) (p : RtPath) (ps qs : List RtPath)
    → mem p.id (ids ps) ≡ false
    → All (IsAt version dst ps) qs
    → All (IsAt version dst (p ∷ ps)) qs
unfolding find_path mem
IsAt-behind version dst p ps [] apart all = tt
IsAt-behind version dst p ps (q ∷ qs) apart (found, rest) = (
  (ground (arith, found.0, apart, find_path-mem q.id ps q found.0), found.1),
  IsAt-behind version dst p ps qs apart rest,
)

-- The tree has the current paths,
pub path_tree-IsAt :
    (version dst : ℕ) (ps : List RtPath)
    → IsNodup (ids ps)
    → All (IsAt version dst ps) (path_tree dst (delete_outdated version dst ps))
unfolding path_tree delete_outdated find_path
path_tree-IsAt version dst [] n = tt
path_tree-IsAt version dst (p ∷ ps) n =
    let rest =
      IsAt-behind version dst p ps (path_tree dst (delete_outdated version dst ps)) n.0
        (path_tree-IsAt version dst ps n.1) in
    rw (path_tree_step version dst p ps) (
      if_cases (All (IsAt version dst (p ∷ ps))) (is_current version dst p) _ _
        (λ now. ((ground arith, now), rest)) (λ old. rest))

-- and all of them.
pub path_tree-All {κ} :
    (Q : RtPath → Type κ) (version dst : ℕ) (ps : List RtPath)
    → All Q (path_tree dst (delete_outdated version dst ps))
    → All (λ q. is_current version dst q ≡ true → Q q) ps
unfolding path_tree delete_outdated
path_tree-All Q version dst [] all = tt
path_tree-All Q version dst (p ∷ ps) all =
    let rest = path_tree dst (delete_outdated version dst ps) in
    let split = subst (All Q) (path_tree_step version dst p ps) all in
    elim (Bool-cases (is_current version dst p)) [
      | inl now ↦
          let here : All Q (p ∷ rest) =
            subst (λ c. All Q (if c then p ∷ rest else rest)) now split in
          ((λ h. here.0), path_tree-All Q version dst ps here.1)
      | inr old ↦
          let here : All Q rest = subst (λ c. All Q (if c then p ∷ rest else rest)) old split in
          ((λ h. absurd (ground (arith, old, h))), path_tree-All Q version dst ps here)
    ]

-- What holds of the current paths does not depend on what was outdated,
pub current_before {κ} :
    (Q : RtPath → Type κ) (version dst other : ℕ) (ps : List RtPath)
    → All (λ q. is_current version dst q ≡ true → Q q) (delete_outdated version other ps)
    → All (λ q. is_current version dst q ≡ true → Q q) ps
unfolding delete_outdated
current_before Q version dst other [] all = tt
current_before Q version dst other (p ∷ ps) all = (
  (λ now.
      subst Q (outdate_current version dst other p now)
        (all.0 (outdated_current version dst other p ∙ now))),
  current_before Q version dst other ps all.1,
)

find_path-outdated :
    (version other id : ℕ) (p : RtPath) (ps : List RtPath)
    → find_path id (delete_outdated version other (p ∷ ps)) ≡ (
        if p.id == id
        then some (outdate version other p)
        else find_path id (delete_outdated version other ps))
unfolding find_path delete_outdated
find_path-outdated version other id p ps = rw (outdate_keeps version other p).0 refl

outdate_back :
    (version other : ℕ) (p b : RtPath)
    → b.rtp_rt ≡ true
    → some (outdate version other p) ≡ some b
    → some p ≡ some b
outdate_back version other p b there h =
    elim (Bool-cases (p.rtp_rt && p.dst == other && not (version == p.version))) [
      | inl old ↦ absurd (ground (arith, h, old, there))
      | inr same ↦ ground (arith, h, same)
    ]

pub find_path-before :
    (version other : ℕ) (ps : List RtPath) (b : RtPath)
    → b.rtp_rt ≡ true
    → find_path b.id (delete_outdated version other ps) ≡ some b
    → find_path b.id ps ≡ some b
unfolding find_path delete_outdated
find_path-before version other [] b there h = absurd (ground (arith, h))
find_path-before version other (p ∷ ps) b there h =
    let h' = sym (find_path-outdated version other b.id p ps) ∙ h in
    elim (Bool-cases (p.id == b.id)) [
      | inl at ↦ rw at (outdate_back version other p b there (ground (arith, h', at)))
      | inr on ↦ rw on (find_path-before version other ps b there (ground (arith, h', on)))
    ]

pub find_path-after :
    (version dst other : ℕ) (ps : List RtPath) (b : RtPath)
    → is_current version dst b ≡ true
    → find_path b.id ps ≡ some b
    → find_path b.id (delete_outdated version other ps) ≡ some b
unfolding find_path delete_outdated
find_path-after version dst other [] b now h = absurd (ground (arith, h))
find_path-after version dst other (p ∷ ps) b now h =
    find_path-outdated version other b.id p ps ∙ elim (Bool-cases (p.id == b.id)) [
      | inl at ↦
          let same : p ≡ b = ground (arith, h, at) in
          rw (at, same) (ap some (outdate_current version dst other b now))
      | inr on ↦ rw on (find_path-after version dst other ps b now (ground (arith, h, on)))
    ]
