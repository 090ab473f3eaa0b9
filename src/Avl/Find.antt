-- ===== src/Avl/Find.antt =====
-- Where `int_avl_find_rec` of src/common/avl.c stops.
use Prim.Native.Nat.{compare}
use Prim.Native.Nat.Ordering.{lt, eq, gt}
use olsr.Prelude.{
  ℕ, ◌<◌, ◌≡◌, ◌⊎◌, inl, inr, refl, sym, true, false, Option, some, arith, Bool-cases,
}
use olsr.Prelude.Int.{ℤ, pos_part, neg_part}
use olsr.Avl.{Tree, leaf, node, Found, find_rec, is_null}
use olsr.Avl.Balance.{height, IsBalanced}
use olsr.Avl.Order.{AllNodes, IsOrdered}

abbrev pub IsNode : ℕ → ℕ → Tree → Type 0
IsNode id key leaf = ⊥
IsNode id key (node l i k b r) = IsNode id key l ⊎ ((i ≡ id) × (k ≡ key)) ⊎ IsNode id key r

-- The node that was found is of the tree, and the key belongs next to it on the side that the
-- comparison tells, where it has room for a child.
abbrev pub Fits : ℕ → Tree → Found → Type 0
Fits q t f =
    IsNode f.id f.key t
    × (f.diff ≡ compare q f.key)
    × (f.diff ≡ lt → (neg_part f.balance ≡ 0) × AllNodes (λ p. p.1 < f.key → p.1 < q) t)
    × (f.diff ≡ gt → (pos_part f.balance ≡ 0) × AllNodes (λ p. f.key < p.1 → q < p.1) t)

AllNodes-imp :
    (P Q : ℕ × ℕ → Type 0) (t : Tree) → AllNodes P t → ((p : ℕ × ℕ) → P p → Q p) → AllNodes Q t
AllNodes-imp P Q leaf a f = tt
AllNodes-imp P Q (node l i k b r) a f =
    (AllNodes-imp P Q l a.0 f, f (i, k) a.1, AllNodes-imp P Q r a.2 f)

IsNode-AllNodes :
    (P : ℕ × ℕ → Type 0) (id key : ℕ) (t : Tree) → AllNodes P t → IsNode id key t → P (id, key)
IsNode-AllNodes P id key leaf a h = absurd h
IsNode-AllNodes P id key (node l i k b r) a (inl h) = IsNode-AllNodes P id key l a.0 h
IsNode-AllNodes P id key (node l i k b r) a (inr (inl h)) = rw (sym h.0, sym h.1) a.1
IsNode-AllNodes P id key (node l i k b r) a (inr (inr h)) = IsNode-AllNodes P id key r a.2 h

pub compare-cases :
    (a b : ℕ)
    → (compare a b ≡ lt) × (a < b) ⊎ (compare a b ≡ eq) × (a ≡ b) ⊎ (compare a b ≡ gt) × (b < a)
compare-cases a b = ground arith

AllNodes-null : (P : ℕ × ℕ → Type 0) (t : Tree) → is_null t ≡ true → AllNodes P t
unfolding is_null
AllNodes-null P leaf h = tt
AllNodes-null P (node l i k b r) h = cc

height_null : (t : Tree) → is_null t ≡ true → height t ≡ 0
unfolding is_null height
height_null leaf h = refl
height_null (node l i k b r) h = cc

pub find_rec_null :
    (found : Option Found) (t : Tree) (q : ℕ) → is_null t ≡ true → find_rec found t q ≡ found
unfolding is_null find_rec
find_rec_null found leaf q h = refl
find_rec_null found (node l i k b r) q h = cc

-- The node itself, where the side of the key has no child.
Fits-here :
    (l : Tree) (i k : ℕ) (b : ℤ) (r : Tree) (q : ℕ)
    → IsBalanced (node l i k b r)
    → IsOrdered (node l i k b r)
    → (q < k → is_null l ≡ true)
    → (k < q → is_null r ≡ true)
    → Fits q (node l i k b r) (record { id = i; key = k; balance = b; diff = compare q k })
unfolding height
Fits-here l i k b r q v o hl hr = (
  inr (inl (refl, refl)),
  refl,
  (λ h. (
    ground (arith, height_null l, hl, h),
    (
      AllNodes-null (λ p. p.1 < k → p.1 < q) l (hl (ground (arith, h))),
      (λ x. absurd (omega arith)),
      AllNodes-imp (λ p. k < p.1) (λ p. p.1 < k → p.1 < q) r o.1
          (λ p above less. absurd (omega arith)),
    ),
  )),
  (λ h. (
    ground (arith, height_null r, hr, h),
    (
      AllNodes-imp (λ p. p.1 < k) (λ p. k < p.1 → q < p.1) l o.0
          (λ p above less. absurd (omega arith)),
      (λ x. absurd (omega arith)),
      AllNodes-null (λ p. k < p.1 → q < p.1) r (hr (ground (arith, h))),
    ),
  )),
)

Fits-left :
    (l : Tree) (i k : ℕ) (b : ℤ) (r : Tree) (q : ℕ) (f : Found)
    → IsOrdered (node l i k b r)
    → q < k
    → Fits q l f
    → Fits q (node l i k b r) f
Fits-left l i k b r q f o less fits =
    let below = IsNode-AllNodes (λ p. p.1 < k) f.id f.key l o.0 fits.0 in
    (
      inl fits.0,
      fits.1,
      (λ h.
          let room = fits.2 h in
          (
            room.0,
            (
              room.1,
              (λ x. absurd (omega arith)),
              AllNodes-imp (λ p. k < p.1) (λ p. p.1 < f.key → p.1 < q) r o.1
                  (λ p above x. absurd (omega arith)),
            ),
          )),
      (λ h.
          let room = fits.3 h in
          (
            room.0,
            (
              room.1,
              (λ x. less),
              AllNodes-imp (λ p. k < p.1) (λ p. f.key < p.1 → q < p.1) r o.1
                  (λ p above x. omega arith),
            ),
          )),
    )

Fits-right :
    (l : Tree) (i k : ℕ) (b : ℤ) (r : Tree) (q : ℕ) (f : Found)
    → IsOrdered (node l i k b r)
    → k < q
    → Fits q r f
    → Fits q (node l i k b r) f
Fits-right l i k b r q f o more fits =
    let above = IsNode-AllNodes (λ p. k < p.1) f.id f.key r o.1 fits.0 in
    (
      inr (inr fits.0),
      fits.1,
      (λ h.
          let room = fits.2 h in
          (
            room.0,
            (
              AllNodes-imp (λ p. p.1 < k) (λ p. p.1 < f.key → p.1 < q) l o.0
                  (λ p below x. omega arith),
              (λ x. more),
              room.1,
            ),
          )),
      (λ h.
          let room = fits.3 h in
          (
            room.0,
            (
              AllNodes-imp (λ p. p.1 < k) (λ p. f.key < p.1 → q < p.1) l o.0
                  (λ p below x. absurd (omega arith)),
              (λ x. absurd (omega arith)),
              room.1,
            ),
          )),
    )

pub find_rec_lem :
    (found : Option Found) (t : Tree) (q : ℕ)
    → is_null t ≡ false
    → IsBalanced t
    → IsOrdered t
    → (f : Found) × (find_rec found t q ≡ some f) × Fits q t f
unfolding find_rec is_null
find_rec_lem found leaf q full v o = cc
find_rec_lem found (node l i k b r) q full v o =
    let here : Found = record { id = i; key = k; balance = b; diff = compare q k } in
    elim (compare-cases q k) [
      | inl (less, h) ↦ elim (Bool-cases (is_null l)) [
        | inl null ↦ (
          here,
          ground (arith, less, find_rec_null (some here) l q null),
          Fits-here l i k b r q v o (λ x. null) (λ x. absurd (omega arith)),
        )
        | inr there ↦
            let (f, found_f, fits) = find_rec_lem (some here) l q there v.0 o.2 in
            (f, ground (arith, less, found_f), Fits-left l i k b r q f o h fits)
      ]
      | inr (inl (same, h)) ↦ (
        here,
        ground (arith, same),
        Fits-here l i k b r q v o (λ x. absurd (omega arith)) (λ x. absurd (omega arith)),
      )
      | inr (inr (more, h)) ↦ elim (Bool-cases (is_null r)) [
        | inl null ↦ (
          here,
          ground (arith, more, find_rec_null (some here) r q null),
          Fits-here l i k b r q v o (λ x. absurd (omega arith)) (λ x. null),
        )
        | inr there ↦
            let (f, found_f, fits) = find_rec_lem (some here) r q there v.1 o.3 in
            (f, ground (arith, more, found_f), Fits-right l i k b r q f o h fits)
      ]
    ]
