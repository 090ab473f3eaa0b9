-- ===== src/Spf/Run.antt =====
-- `olsr_spf_run_full`: every round keeps the invariant and settles one more node, so the rounds end,
-- and then the costs are those of the cheapest walks.
use olsr.Prelude.{
  ℕ, zero, suc, ◌+◌, ◌*◌, ◌≤◌, ◌≡◌, refl, ap, true, false, List, [], ◌∷◌, ◌++◌, none, some, arith,
  length, ◌∙◌, ◌⊎◌, inl, inr,
}
use olsr.Spf.Nodes.{mem, mem-remove, remove-IsNodup, mem-append, mem_one, IsNodup-concat, length-le}
use olsr.Spf.Cand.{remove-IsSorted, IsSorted-append}
use olsr.Spf.Walk.{Graph, Contains}
use olsr.Spf.Mid.{Inv, best-mem, best-le}
use olsr.Spf.Relax.{Progress, relax-Progress}
use olsr.Spf.{Edge, Spf, cost_of, relax, settle, extract_best, run_loop}

length-concat : (vs : List ℕ) (v : ℕ) → length (vs ++ v ∷ []) ≡ length vs + 1
length-concat [] v = refl
length-concat (w ∷ vs) v = omega (arith, length-concat vs v)

List-cases : (vs : List ℕ) → (vs ≡ []) ⊎ ((v : ℕ) × (ws : List ℕ) × (vs ≡ v ∷ ws))
List-cases [] = inl refl
List-cases (v ∷ ws) = inr (v, ws, refl)

module _ (edges : Graph) (myself : ℕ) (nodes : List ℕ) where
  -- The end of a round that explored `tc`.
  settle-Inv :
      (base tc : ℕ) (s t : Spf)
      → (mem tc s.path_list ≡ false)
      → Progress edges myself nodes (base + 0xff_fffe) tc (edges tc) s t
      → Inv edges myself nodes (base + 0xff_fffe) (settle tc t)
  unfolding settle
  settle-Inv base tc s t fresh p =
      let m = p.mid in
      let inv = m.inv in
      let gone = λ (w : ℕ). mem-remove tc w t.cand_tree inv.cand_nodup in
      let added = λ (w : ℕ). mem-append w t.path_list (tc ∷ []) in
      record {
        sorted = remove-IsSorted (cost_of t) tc t.cand_tree inv.sorted;
        cand_nodup = remove-IsNodup tc t.cand_tree inv.cand_nodup;
        path_nodup = IsNodup-concat t.path_list tc inv.path_nodup (rw p.path fresh);
        path_sorted =
            IsSorted-append (cost_of t) tc t.path_list inv.path_sorted
              (λ w h. inv.settled w tc h (best-mem edges myself nodes (base + 0xff_fffe) tc t m));
        finite = λ w. ground (
          arith,
          gone w,
          added w,
          mem_one w tc,
          inv.finite w,
          inv.finite tc,
          best-mem edges myself nodes (base + 0xff_fffe) tc t m,
        );
        apart = λ w h. ground (arith, gone w, added w, mem_one w tc, h, inv.apart w);
        settled = λ u w hu hw. ground (
          arith,
          gone w,
          added u,
          mem_one u tc,
          hu,
          hw,
          inv.settled u w,
          best-le edges myself nodes (base + 0xff_fffe) tc t m w,
        );
        closed = λ u x hu usable.
            ground
              (arith, added u, mem_one u tc, hu, usable, inv.closed u x, p.covers x, p.same_cost);
        sound = inv.sound;
        bounded = inv.bounded;
        known = inv.known;
        source = inv.source;
      }

  Inv-mono :
      (limit limit' : ℕ) (s : Spf)
      → limit ≤ limit'
      → Inv edges myself nodes limit s
      → Inv edges myself nodes limit' s
  Inv-mono limit limit' s le inv = record {
    sorted = inv.sorted;
    cand_nodup = inv.cand_nodup;
    path_nodup = inv.path_nodup;
    path_sorted = inv.path_sorted;
    finite = inv.finite;
    apart = inv.apart;
    settled = inv.settled;
    closed = inv.closed;
    sound = inv.sound;
    bounded = λ v h. ground (arith, inv.bounded v h);
    known = inv.known;
    source = inv.source;
  }

  -- The state between two rounds.
  pub record Between (s : Spf) : Type 0 where
    pub inv : Inv edges myself nodes (length s.path_list * 0xff_fffe) s
    pub count : s.path_count ≡ length s.path_list

  module _ (s : Spf) (b : Between s) (tc : ℕ) (rest : List ℕ)
      (front : s.cand_tree ≡ tc ∷ rest) where
    pub candidate : mem tc s.cand_tree ≡ true
    unfolding mem
    candidate = rw front (ground arith)

    pub fresh : mem tc s.path_list ≡ false
    fresh = ground (arith, b.inv.apart tc, candidate)

    pub room : length s.path_list + 1 ≤ length nodes
    unfolding mem
    room = omega (
      arith,
      length-le (tc ∷ s.path_list) nodes (fresh, b.inv.path_nodup)
          (λ v h.
            ground (
              arith,
              h,
              b.inv.finite v,
              b.inv.finite tc,
              candidate,
              b.inv.known v,
              b.inv.known tc,
            )),
    )

    pub near :
        (cost_of s tc ≤ length s.path_list * 0xff_fffe)
        × ((s.vertex tc).hops * 0xff_fffe ≤ length s.path_list * 0xff_fffe)
    near = ground (arith, b.inv.finite tc, candidate, b.inv.bounded tc)

    pub raised : Inv edges myself nodes (length s.path_list * 0xff_fffe + 0xff_fffe) s
    raised = Inv-mono _ _ s (omega arith) b.inv

    module _ (small : length nodes ≤ 255)
        (inside : (u : ℕ) (e : Edge) → Contains e (edges u) → mem e.dest nodes ≡ true) where
      pub progress :
          Progress edges myself nodes
            (length s.path_list * 0xff_fffe + 0xff_fffe)
            tc
            (edges tc)
            s
            (relax tc s (edges tc))
      progress =
          relax-Progress edges myself nodes (length s.path_list * 0xff_fffe) tc
            (omega (arith, room)) (inside tc) (edges tc) s (λ e h. h)
            (record { inv = raised; rest = rest; front = front }) near

      pub settle-length :
          length (settle tc (relax tc s (edges tc))).path_list ≡ length s.path_list + 1
      unfolding settle
      settle-length = rw (progress.path, length-concat s.path_list tc) refl

      round : Between (settle tc (relax tc s (edges tc)))
      unfolding settle
      round =
          let p = progress in
          record {
            inv =
                Inv-mono _ _ _ (omega (arith, settle-length))
                  (settle-Inv (length s.path_list * 0xff_fffe) tc s _ fresh p);
            count = omega (arith, settle-length, p.count, b.count);
          }

  run_loop_stop : (fuel : ℕ) (s : Spf) → s.cand_tree ≡ [] → run_loop edges fuel s ≡ some s
  unfolding run_loop
  run_loop_stop zero s h = rw h refl
  run_loop_stop (suc fuel) s h = rw h refl

  run_loop_next :
      (fuel : ℕ) (s : Spf) (tc : ℕ) (rest : List ℕ)
      → s.cand_tree ≡ tc ∷ rest
      → run_loop edges (suc fuel) s ≡ run_loop edges fuel (settle tc (relax tc s (edges tc)))
  unfolding run_loop
  run_loop_next fuel s tc rest h =
      ap
        (λ cand. elim (extract_best cand) [
          | none ↦ some s
          | some tc ↦ run_loop edges fuel (settle tc (relax tc s (edges tc)))
        ])
        h

  -- Every round settles a node, and keeps what all rounds keep, so the fuel of one round for each
  -- node is enough.
  pub run_loop-Between {ℓ} :
      {P : Spf → Type ℓ} (fuel : ℕ) (s : Spf)
      → length nodes ≤ 255
      → ((u : ℕ) (e : Edge) → Contains e (edges u) → mem e.dest nodes ≡ true)
      → length nodes ≤ length s.path_list + fuel
      → Between s
      → P s
      → ((s : Spf) (tc : ℕ) (rest : List ℕ)
          → s.cand_tree ≡ tc ∷ rest
          → Between s
          → P s
          → P (settle tc (relax tc s (edges tc))))
      → (t : Spf) × (run_loop edges fuel s ≡ some t) × Between t × (t.cand_tree ≡ []) × P t
  run_loop-Between zero s small inside enough b p keep = elim (List-cases s.cand_tree) [
    | inl none_left ↦ (s, run_loop_stop zero s none_left, b, none_left, p)
    | inr (tc, rest, front) ↦ absurd (omega (arith, room s b tc rest front))
  ]
  run_loop-Between (suc fuel) s small inside enough b p keep = elim (List-cases s.cand_tree) [
    | inl none_left ↦ (s, run_loop_stop (suc fuel) s none_left, b, none_left, p)
    | inr (tc, rest, front) ↦
        let (t, runs, bt, done, pt) =
          run_loop-Between fuel (settle tc (relax tc s (edges tc))) small inside
            (omega (arith, settle-length s b tc rest front small inside))
            (round s b tc rest front small inside) (keep s tc rest front b p) keep in
        (t, run_loop_next fuel s tc rest front ∙ runs, bt, done, pt)
  ]
