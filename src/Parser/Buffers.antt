-- ===== src/Parser/Buffers.antt =====
-- The output buffers of src/net_olsr.c as olsr_forward_message of src/parser.c fills them.
use olsr.Prelude.{
  ℕ, suc, ◌+◌, ◌≤◌, ◌<◌, ◌≡◌, refl, sym, ap, ◌∙◌, inl, inr, true, false, ◌&&◌, not, ◌||◌, ◌==◌, ltb,
  Bool-cases, if◌then◌else◌, List, [], ◌∷◌, ◌++◌, length, length-append, drop, All, arith,
  Option-cases,
}
use mathlib.Core.Bool.{or-true, or-false}
use mathlib.Core.List.{append-nil, append_assoc}
use olsr.Timer.{Env}
use olsr.Packet.{Bytes, pkt_put_u16}
use olsr.Parser.{
  Interface, net_output_pending, net_outbuffer_push, net_output, set_buffer_timer, forward_on,
  forward_all,
}

-- The pending bytes are no more than the buffer has room for.
abbrev pub Fits : Interface → Type 0
Fits ifn = net_output_pending ifn ≤ ifn.maxsize

abbrev payloads : List Bytes → Bytes
payloads [] = []
payloads (packet ∷ packets) = payloads packets ++ drop 4 packet

-- All messages that the interface was given, in their order: those that were sent, without the
-- headers of the packets, and those that are pending.
unfoldable pub traffic : Interface → Bytes
traffic ifn = payloads ifn.sent ++ ifn.buff

pub net_outbuffer_push-Fits :
    (bytes : Bytes) (ifn : Interface) → Fits ifn → Fits (net_outbuffer_push bytes ifn).0
unfolding net_outbuffer_push net_output_pending
net_outbuffer_push-Fits bytes ifn h = ground (arith, length-append ifn.buff bytes)

net_output-Fits : (ifn : Interface) → Fits ifn → Fits (net_output ifn)
unfolding net_output net_output_pending
net_output-Fits ifn h = ground arith

set_buffer_timer_keeps :
    (env : Env) (ifn : Interface)
    → ((set_buffer_timer env ifn).buff ≡ ifn.buff)
      × ((set_buffer_timer env ifn).maxsize ≡ ifn.maxsize)
      × ((set_buffer_timer env ifn).sent ≡ ifn.sent)
unfolding set_buffer_timer
set_buffer_timer_keeps env ifn = elim (Option-cases ifn.buffer_hold_timer) [
  | inl unset ↦ (rw unset refl, rw unset refl, rw unset refl)
  | inr (t, running) ↦ (rw running refl, rw running refl, rw running refl)
]

set_buffer_timer-Fits : (env : Env) (ifn : Interface) → Fits ifn → Fits (set_buffer_timer env ifn)
unfolding net_output_pending
set_buffer_timer-Fits env ifn h =
    let (buff, maxsize, sent) = set_buffer_timer_keeps env ifn in rw (buff, maxsize) h

pub forward_on-Fits :
    (env : Env) (in_if : ℕ) (bytes : Bytes) (ifn : Interface)
    → Fits ifn
    → Fits (forward_on env in_if bytes ifn)
unfolding forward_on
forward_on-Fits env in_if bytes ifn h = ground (
  arith,
  net_outbuffer_push-Fits bytes ifn h,
  net_outbuffer_push-Fits bytes (set_buffer_timer env ifn) (set_buffer_timer-Fits env ifn h),
  net_outbuffer_push-Fits bytes (set_buffer_timer env (net_output ifn))
      (set_buffer_timer-Fits env (net_output ifn) (net_output-Fits ifn h)),
)

pub forward_all-Fits :
    (env : ℕ → Env) (in_if : ℕ) (bytes : Bytes) (ifs : List Interface)
    → All Fits ifs
    → All Fits (forward_all env in_if bytes ifs)
unfolding forward_all
forward_all-Fits env in_if bytes [] h = tt
forward_all-Fits env in_if bytes (ifn ∷ more) h = (
  forward_on-Fits (env 0) in_if bytes ifn h.0,
  forward_all-Fits (λ n. env (suc n)) in_if bytes more h.1,
)

net_outbuffer_push-accepts :
    (bytes : Bytes) (ifn : Interface)
    → length ifn.buff + length bytes ≤ ifn.maxsize
    → net_outbuffer_push bytes ifn ≡ (record ifn { buff = ifn.buff ++ bytes }, length bytes)
unfolding net_outbuffer_push net_output_pending
net_outbuffer_push-accepts bytes ifn h =
    let room : ltb ifn.maxsize (length ifn.buff + length bytes) ≡ false = ground (arith, h) in
    rw room refl

net_outbuffer_push-rejects :
    (bytes : Bytes) (ifn : Interface)
    → ifn.maxsize < length ifn.buff + length bytes
    → net_outbuffer_push bytes ifn ≡ (ifn, 0)
unfolding net_outbuffer_push net_output_pending
net_outbuffer_push-rejects bytes ifn h =
    let full : ltb ifn.maxsize (length ifn.buff + length bytes) ≡ true = ground (arith, h) in
    rw full refl

net_output-traffic : (ifn : Interface) → traffic (net_output ifn) ≡ traffic ifn
unfolding traffic net_output net_output_pending pkt_put_u16
net_output-traffic ifn = elim (Bool-cases (length ifn.buff == 0)) [
  | inl empty ↦ rw empty refl
  | inr pending ↦ rw (pending, append-nil) refl
]

length_none : (bytes : Bytes) → length bytes ≡ 0 → bytes ≡ []
length_none [] h = refl
length_none (b ∷ bytes) h = absurd (omega arith)

net_output_empties :
    (ifn : Interface) → ((net_output ifn).buff ≡ []) × ((net_output ifn).maxsize ≡ ifn.maxsize)
unfolding net_output net_output_pending
net_output_empties ifn = elim (Bool-cases (length ifn.buff == 0)) [
  | inl empty ↦ (rw empty (length_none ifn.buff (ground (arith, empty))), rw empty refl)
  | inr pending ↦ (rw pending refl, rw pending refl)
]

net_outbuffer_push-traffic :
    (bytes : Bytes) (ifn : Interface)
    → traffic (net_outbuffer_push bytes ifn).0 ≡ (
        if ltb ifn.maxsize (length ifn.buff + length bytes)
        then traffic ifn
        else traffic ifn ++ bytes)
unfolding net_outbuffer_push net_output_pending traffic
net_outbuffer_push-traffic bytes ifn =
    elim (Bool-cases (ltb ifn.maxsize (length ifn.buff + length bytes))) [
      | inl full ↦ rw full refl
      | inr room ↦ rw room (sym (append_assoc (payloads ifn.sent) ifn.buff bytes))
    ]

-- A push into an empty buffer, behind its timer.
push_fresh :
    (env : Env) (bytes : Bytes) (ifn : Interface)
    → ifn.buff ≡ []
    → traffic (net_outbuffer_push bytes (set_buffer_timer env ifn)).0
      ≡ (if ltb ifn.maxsize (length bytes) then traffic ifn else traffic ifn ++ bytes)
unfolding traffic
push_fresh env bytes ifn empty =
    let (buff, maxsize, sent) = set_buffer_timer_keeps env ifn in
    let same : traffic (set_buffer_timer env ifn) ≡ traffic ifn = rw (buff, sent) refl in
    let none : length (set_buffer_timer env ifn).buff + length bytes ≡ length bytes =
      omega (arith, ap length (buff ∙ empty)) in
    net_outbuffer_push-traffic bytes (set_buffer_timer env ifn) ∙ rw (none, maxsize, same) refl

-- A push into a buffer that has bytes pending, which is sent if there is no room.
push_pending :
    (env : Env) (bytes : Bytes) (ifn : Interface)
    → 0 < length bytes
    → traffic (
        let pushed = net_outbuffer_push bytes ifn in
        if pushed.1 == length bytes
        then pushed.0
        else (net_outbuffer_push bytes (set_buffer_timer env (net_output ifn))).0)
      ≡ (if ltb ifn.maxsize (length bytes) then traffic ifn else traffic ifn ++ bytes)
unfolding traffic
push_pending env bytes ifn given =
    let fresh = push_fresh env bytes (net_output ifn) (net_output_empties ifn).0 in
    elim (Bool-cases (ltb ifn.maxsize (length ifn.buff + length bytes))) [
      | inl full ↦
          let other : (0 == length bytes) ≡ false = ground (arith, given) in
          let rejected = net_outbuffer_push-rejects bytes ifn (ground (arith, full)) in
          rw (rejected, other)
            (fresh ∙ simp ((net_output_empties ifn).1, net_output-traffic ifn) refl)
      | inr room ↦
          let accepted = net_outbuffer_push-accepts bytes ifn (ground (arith, room)) in
          let same : (length bytes == length bytes) ≡ true = ground arith in
          let fits : ltb ifn.maxsize (length bytes) ≡ false = ground (arith, room) in
          rw (accepted, same, fits) (sym (append_assoc (payloads ifn.sent) ifn.buff bytes))
    ]

-- A message that forwarding hands to an interface comes after all that the interface was given
-- before, sent or pending, unless it is larger than a buffer, or the interface has mode ether, is the
-- one that the message came in on, and has bytes pending: then nothing is added. Nothing that was
-- there is lost, and a buffer that was not too full does not become so.
pub forward_on_lem :
    (env : Env) (in_if : ℕ) (bytes : Bytes) (ifn : Interface)
    → Fits ifn
    → 0 < length bytes
    → (traffic (forward_on env in_if bytes ifn) ≡ (
        if ltb ifn.maxsize (length bytes)
          || (not (length ifn.buff == 0) && ifn.mode_ether && ifn.id == in_if)
        then traffic ifn
        else traffic ifn ++ bytes))
      × Fits (forward_on env in_if bytes ifn)
unfolding forward_on net_output_pending
forward_on_lem env in_if bytes ifn fits given = (
  elim (Bool-cases (length ifn.buff == 0)) [
    | inl none_pending ↦
        let fresh =
          push_fresh env bytes ifn (length_none ifn.buff (ground (arith, none_pending))) in
        rw (none_pending, or-false) fresh
    | inr pending ↦ elim (Bool-cases (ifn.mode_ether && ifn.id == in_if)) [
      | inl back ↦ rw (pending, back, or-true) refl
      | inr on ↦ rw (pending, on, or-false) (push_pending env bytes ifn given)
    ]
  ],
  forward_on-Fits env in_if bytes ifn fits,
)
