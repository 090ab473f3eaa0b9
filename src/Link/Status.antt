-- ===== src/Link/Status.antt =====
-- What a HELLO says of a link, and what the link's status is once the HELLO has been taken in.
use olsr.Prelude.{
  Bool-cases, subst, sym, inl, inr, not, ◌==◌, ◌&&◌, ℕ, ◌+◌, ◌^◌, ◌<◌, ◌≡◌, ◌≢◌, ◌↔◌, refl,
  if◌then◌else◌, Bool, true, false, Option, List, [], ◌∷◌, ◌⊎◌, arith, leb, ap, ◌∙◌,
}
use olsr.Clock.{is_past, u32}
use olsr.Clock.Wrap.{is_past-get_absolute}
use olsr.Timer.{Env, TimerEntry, set}
use olsr.Link.{
  LinkStatus, unspec_link, asym_link, sym_link, lost_link, LinkEntry, HelloNeighbor, is_sym_link,
  is_unspec_link, is_some, lookup_link_status, check_status_loop, check_link_status, set_status,
  stretch, update_link, expire_link_sym_timer,
}

-- The HELLO lists the address, with a type that is not `UNSPEC_LINK`.
abbrev pub Lists : ℕ → List HelloNeighbor → Type 0
Lists ip [] = ⊥
Lists ip (n ∷ ns) = ((n.addr ≡ ip) × (n.link_type ≢ unspec_link)) ⊎ Lists ip ns

-- The HELLO lists the address as a symmetric neighbor.
abbrev pub ListsSym : ℕ → List HelloNeighbor → Type 0
ListsSym ip [] = ⊥
ListsSym ip (n ∷ ns) = ((n.addr ≡ ip) × (n.link_type ≡ sym_link)) ⊎ ListsSym ip ns

-- The last of the listed neighbors with the address has this type, where those of type `UNSPEC_LINK`
-- do not count.
abbrev pub LastListed : ℕ → List HelloNeighbor → LinkStatus → Type 0
LastListed ip [] s = ⊥
LastListed ip (n ∷ ns) s =
    LastListed ip ns s
    ⊎ ((n.addr ≡ ip) × (n.link_type ≢ unspec_link) × (n.link_type ≡ s) × ¬ Lists ip ns)

-- What a HELLO says of the link to an address: symmetric, if it lists the address so anywhere; what it
-- lists last, if it lists it with other types; and nothing.
abbrev pub HelloSays : ℕ → List HelloNeighbor → LinkStatus → Type 0
HelloSays ip ns s =
    (ListsSym ip ns × (s ≡ sym_link))
    ⊎ (¬ ListsSym ip ns × LastListed ip ns s)
    ⊎ (¬ Lists ip ns × (s ≡ unspec_link))

is_sym_link_iff : (s : LinkStatus) → (is_sym_link s ≡ true) ↔ (s ≡ sym_link)
unfolding is_sym_link
is_sym_link_iff unspec_link = ground arith
is_sym_link_iff asym_link = ground arith
is_sym_link_iff sym_link = ground arith
is_sym_link_iff lost_link = ground arith

is_unspec_link_iff : (s : LinkStatus) → (is_unspec_link s ≡ true) ↔ (s ≡ unspec_link)
unfolding is_unspec_link
is_unspec_link_iff unspec_link = ground arith
is_unspec_link_iff asym_link = ground arith
is_unspec_link_iff sym_link = ground arith
is_unspec_link_iff lost_link = ground arith

unspec-ne-sym : unspec_link ≢ sym_link
unspec-ne-sym = ground arith

ListsSym-Lists : (ip : ℕ) (ns : List HelloNeighbor) → ListsSym ip ns → Lists ip ns
ListsSym-Lists ip [] h = h
ListsSym-Lists ip (n ∷ ns) (inl (at, is_sym)) = inl (at, λ e. unspec-ne-sym (sym e ∙ is_sym))
ListsSym-Lists ip (n ∷ ns) (inr later) = inr (ListsSym-Lists ip ns later)

check_status_loop-HelloSays :
    (ip : ℕ) (ns : List HelloNeighbor) (ret : LinkStatus)
    → (ListsSym ip ns × (check_status_loop ip ns ret ≡ sym_link))
      ⊎ (¬ ListsSym ip ns × LastListed ip ns (check_status_loop ip ns ret))
      ⊎ (¬ Lists ip ns × (check_status_loop ip ns ret ≡ ret))
unfolding check_status_loop
check_status_loop-HelloSays ip [] ret = ground arith
check_status_loop-HelloSays ip (n ∷ ns) ret =
    let symmetric = is_sym_link_iff n.link_type in
    let unspecified = is_unspec_link_iff n.link_type in
    elim (Bool-cases (n.addr == ip && not (is_unspec_link n.link_type))) [
      | inl listed ↦ elim (Bool-cases (is_sym_link n.link_type)) [
        | inl is_sym ↦ inl (
          inl (ground (arith, listed), ground (arith, is_sym, symmetric)),
          rw (listed, is_sym, check_status_loop) refl,
        )
        | inr other ↦
            let step : check_status_loop ip (n ∷ ns) ret ≡ check_status_loop ip ns n.link_type =
              rw (listed, other, check_status_loop) refl in
            let here : n.addr ≡ ip = ground (arith, listed) in
            let specified : n.link_type ≢ unspec_link = ground (arith, listed, unspecified) in
            let asymmetric : n.link_type ≢ sym_link = ground (arith, other, symmetric) in
            elim (check_status_loop-HelloSays ip ns n.link_type) [
              | inl (symmetric, e) ↦ inl (inr symmetric, step ∙ e)
              | inr (inl (absent, last)) ↦ inr (
                  inl (
                    (λ h. elim h [ inl first ↦ asymmetric first.1 | inr later ↦ absent later ]),
                    subst (LastListed ip (n ∷ ns)) (sym step) (inl last),
                  ))
              | inr (inr (absent, e)) ↦ inr (
                  inl (
                    (λ h. elim h [
                      | inl first ↦ asymmetric first.1
                      | inr later ↦ absent (ListsSym-Lists ip ns later)
                    ]),
                    inr (here, specified, sym (step ∙ e), absent),
                  ))
            ]
      ]
      | inr skipped ↦
          let step : check_status_loop ip (n ∷ ns) ret ≡ check_status_loop ip ns ret =
            rw (skipped, check_status_loop) refl in
          let unlisted : n.addr ≡ ip → n.link_type ≡ unspec_link =
            ground (arith, skipped, unspecified) in
          elim (check_status_loop-HelloSays ip ns ret) [
            | inl (symmetric, e) ↦ inl (inr symmetric, step ∙ e)
            | inr (inl (absent, last)) ↦ inr (
                inl (
                  (λ h. elim h [
                    | inl (at, is_sym) ↦ unspec-ne-sym (sym (unlisted at) ∙ is_sym)
                    | inr later ↦ absent later
                  ]),
                  subst (LastListed ip (n ∷ ns)) (sym step) (inl last),
                ))
            | inr (inr (absent, e)) ↦ inr (
                inr (
                  (λ h. elim h [ inl (at, ne) ↦ ne (unlisted at) | inr later ↦ absent later ]),
                  step ∙ e,
                ))
          ]
    ]

-- The status of a link by what the last HELLO said of it, by whether it was symmetric before, and by
-- whether the validity time of the HELLO is over.
unfoldable pub status_after : LinkStatus → Bool → Bool → LinkStatus
status_after sym_link before over = sym_link
status_after asym_link before over = sym_link
status_after lost_link before over = if over then lost_link else asym_link
status_after unspec_link before over =
    if before then sym_link else (if over then lost_link else asym_link)

stretch-lookup_link_status :
    (env : Env) (now : ℕ) (l : LinkEntry)
    → lookup_link_status now (stretch env l) ≡ lookup_link_status now l
unfolding stretch lookup_link_status
stretch-lookup_link_status env now l = ground arith

set-is_some :
    (env : Env) (rel jitter : ℕ) (periodic : Bool) (t : Option TimerEntry)
    → 0 < rel
    → is_some (set env rel jitter periodic t) ≡ true
unfolding set
set-is_some env rel jitter periodic t h = ground arith

set_status-lookup_link_status :
    (env : Env) (random vtime now : ℕ) (s : LinkStatus) (l : LinkEntry)
    → 0 < vtime
    → lookup_link_status now (set_status env random vtime s l)
      ≡ status_after s (is_some l.link_sym_timer) (is_past now l.asym_time)
unfolding set_status lookup_link_status status_after
set_status-lookup_link_status env random vtime now sym_link l h =
    rw (set-is_some env vtime 0 false l.link_sym_timer h) refl
set_status-lookup_link_status env random vtime now asym_link l h =
    rw (set-is_some env vtime 0 false l.link_sym_timer h) refl
set_status-lookup_link_status env random vtime now lost_link l h = ground arith
set_status-lookup_link_status env random vtime now unspec_link l h = ground arith

-- For `elapsed` milliseconds after a HELLO with validity time `vtime` came in, both below 2^31 and
-- the latter not 0, and as long as the timer of the symmetric state has not fired: the HELLO says of
-- this interface that it is symmetric if it lists it so anywhere, else what it lists last, else
-- nothing. The link is symmetric if this is symmetric or asymmetric; if it is lost, the link is
-- asymmetric until the validity time is over, and lost then; and if it is nothing, the link stays
-- symmetric if it was, and is as after a lost one if not.
pub update_link-lookup_link_status :
    (env : Env) (random random' vtime ip_addr elapsed : ℕ) (neighbors : List HelloNeighbor)
    (entry : LinkEntry)
    → env.now_times < 2 ^ 32
    → 0 < vtime
    → vtime < 2 ^ 31
    → elapsed < 2 ^ 31
    → (s : LinkStatus) × HelloSays ip_addr neighbors s
      × (lookup_link_status
            (u32 (env.now_times + elapsed))
            (update_link env random random' vtime neighbors ip_addr entry)
          ≡ status_after s (is_some entry.link_sym_timer) (leb vtime elapsed))
unfolding update_link check_link_status
update_link-lookup_link_status env random random' vtime ip elapsed ns entry now pos_vtime v e =
    let over = is_past-get_absolute env.now_times vtime elapsed now v e in
    (
      check_link_status ip ns,
      check_status_loop-HelloSays ip ns unspec_link,
      stretch-lookup_link_status _ _ _
          ∙ (set_status-lookup_link_status env random vtime _ (check_link_status ip ns) _ pos_vtime
              ∙ ap (status_after (check_link_status ip ns) (is_some entry.link_sym_timer)) over),
    )

-- When the timer of the symmetric state fires, the link is not symmetric any more: it is asymmetric
-- or lost, as `ASYM_time` says, its stored status is not `SYM_LINK` either, and the neighbor is
-- updated exactly if the stored status was.
pub expire_link_sym_timer-lookup_link_status :
    (now : ℕ) (link : LinkEntry)
    → (lookup_link_status now (expire_link_sym_timer now link).0
        ≡ (if is_past now link.asym_time then lost_link else asym_link))
      × ((expire_link_sym_timer now link).0.status ≢ sym_link)
      × (((expire_link_sym_timer now link).1 ≡ true) ↔ (link.status ≡ sym_link))
unfolding expire_link_sym_timer lookup_link_status
expire_link_sym_timer-lookup_link_status now link = ground (arith, is_sym_link_iff link.status)
