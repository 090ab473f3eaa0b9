-- ===== src/Parser/Input.antt =====
-- `olsr_input` of src/parser.c with the preprocessors, and the registration of functions.
use olsr.Prelude.{
  ℕ, zero, suc, ◌+◌, ◌≤◌, ◌<◌, ◌≡◌, refl, subst, inl, inr, Bool, true, false, not, ◌||◌, ◌==◌,
  Bool-cases, Option-cases, if◌then◌else◌, List, [], ◌∷◌, length, All, Option, none, some, arith,
}
use olsr.Packet.{Bytes}
use olsr.Parser.{Daemon, Setup, parse_packet}
use olsr.Parser.Walk.{IsDaemon, parse_packet_ends}

-- The `add` functions of the three lists of registered functions.
unfoldable pub add_function {ℓ} : {A : Type ℓ} → A → List A → List A
add_function new_entry functions = new_entry ∷ functions

-- The `remove` functions, with the comparison of the pointers as an argument, and what they return.
unfoldable pub remove_function {ℓ} : {A : Type ℓ} → (A → Bool) → List A → List A × ℕ
remove_function same [] = ([], 0)
remove_function same (entry ∷ next) =
    let rest = remove_function same next in
    if same entry then (next, 1) else (entry ∷ rest.0, rest.1)

-- What `os_recvfrom` gives, with what is asked about its sender and its socket: whether the address
-- of the sender has the right size, the address, whether it is one of this node, and the interface.
pub record Received : Type 0 where
  pub packet : Bytes
  pub size_ok : Bool
  pub from_addr : ℕ
  pub from_ourself : Bool
  pub in_if : Option ℕ

module _ {ℓ} {S : Type ℓ} (cfg : Setup S)
    (preprocessor_functions : List (Bytes → ℕ → ℕ → S → Option Bytes × S)) where
  -- The loop over the preprocessors; none is their NULL, which discards the packet.
  unfoldable pub preprocess :
      List (Bytes → ℕ → ℕ → S → Option Bytes × S) → Bytes → ℕ → ℕ → S → Option Bytes × S
  preprocess [] packet in_if from_addr s = (some packet, s)
  preprocess (function ∷ more) packet in_if from_addr s =
      let r = function packet in_if from_addr s in
      elim r.0 [ none ↦ (none, r.1) | some next ↦ preprocess more next in_if from_addr r.1 ]

  -- The loop of `olsr_input` over what waits in the socket, and what it leaves there.
  unfoldable pub input_loop : ℕ → List Received → Daemon S → Option (Daemon S × List Received)
  input_loop zero waiting d = some (d, waiting)
  input_loop (suc more) [] d = some (d, [])
  input_loop (suc more) (r ∷ waiting) d =
      elim (length r.packet == 0 || not r.size_ok || r.from_ourself) [
        | true ↦ some (d, waiting)
        | false ↦ elim r.in_if [
          | none ↦ some (d, waiting)
          | some in_if ↦
              let p = preprocess preprocessor_functions r.packet in_if r.from_addr d.rest in
              elim p.0 [
                | none ↦ some (record d { rest = p.1 }, waiting)
                | some packet ↦
                    elim (parse_packet cfg in_if r.from_addr packet (record d { rest = p.1 })) [
                      | none ↦ none
                      | some next ↦ input_loop more waiting next
                    ]
              ]
        ]
      ]

  -- `olsr_input`.
  unfoldable pub olsr_input : List Received → Daemon S → Option (Daemon S × List Received)
  olsr_input = input_loop 32

  -- A preprocessor makes bytes of bytes, if it does not discard them.
  abbrev pub IsBytes : Option Bytes → Type 0
  IsBytes none = Unit
  IsBytes (some packet) = All (λ b. b < 256) packet

  abbrev pub KeepsBytes : (Bytes → ℕ → ℕ → S → Option Bytes × S) → Type ℓ
  KeepsBytes function =
      (packet : Bytes) (in_if from_addr : ℕ) (s : S)
      → IsBytes (some packet)
      → IsBytes (function packet in_if from_addr s).0

  preprocess-IsBytes :
      (functions : List (Bytes → ℕ → ℕ → S → Option Bytes × S))
      → All KeepsBytes functions
      → KeepsBytes (preprocess functions)
  unfolding preprocess
  preprocess-IsBytes [] keeps packet in_if from_addr s bytes = bytes
  preprocess-IsBytes (function ∷ more) keeps packet in_if from_addr s bytes =
      elim (Option-cases (function packet in_if from_addr s).0) [
        | inl gone ↦ rw (gone, preprocess) tt
        | inr (made, e) ↦
            rw (e, preprocess)
              (preprocess-IsBytes more keeps.1 made in_if from_addr
                (function packet in_if from_addr s).1
                (subst IsBytes e (keeps.0 packet in_if from_addr s bytes)))
      ]

  -- It ends with what is well formed, and takes no more than it may.
  abbrev Ends : ℕ → List Received → Daemon S → Type ℓ
  Ends budget waiting d =
      (d' : Daemon S) × (left : List Received) × (input_loop budget waiting d ≡ some (d', left))
      × IsDaemon d'
      × (length waiting ≤ length left + budget)

  input_loop-Ends :
      (budget : ℕ) (waiting : List Received) (d : Daemon S)
      → All KeepsBytes preprocessor_functions
      → All (λ r. IsBytes (some r.packet)) waiting
      → IsDaemon d
      → Ends budget waiting d
  unfolding input_loop
  input_loop-Ends zero waiting d keeps bytes v = (d, waiting, refl, v, omega arith)
  input_loop-Ends (suc more) [] d keeps bytes v = (d, [], refl, v, omega arith)
  input_loop-Ends (suc more) (r ∷ waiting) d keeps bytes v =
      elim (Bool-cases (length r.packet == 0 || not r.size_ok || r.from_ourself)) [
        | inl stop ↦ (d, waiting, rw (stop, input_loop) refl, v, omega arith)
        | inr on ↦ elim (Option-cases r.in_if) [
          | inl unknown ↦ (d, waiting, rw (on, unknown, input_loop) refl, v, omega arith)
          | inr (in_if, known) ↦
              let p = preprocess preprocessor_functions r.packet in_if r.from_addr d.rest in
              let d1 : Daemon S = record d { rest = p.1 } in
              let v1 : IsDaemon d1 = record {
                duplicates = v.duplicates;
                interfaces = v.interfaces;
              } in
              elim (Option-cases p.0) [
                | inl gone ↦ (d1, waiting, rw (on, known, gone, input_loop) refl, v1, omega arith)
                | inr (packet, made) ↦
                    let made_bytes = subst IsBytes made (
                      preprocess-IsBytes preprocessor_functions keeps r.packet in_if r.from_addr
                        d.rest bytes.0) in
                    let (d2, parsed, v2) =
                      parse_packet_ends cfg in_if r.from_addr packet d1 made_bytes v1 in
                    let (d', left, run, v', few) =
                      input_loop-Ends more waiting d2 keeps bytes.1 v2 in
                    (d', left, rw (on, known, made, parsed, input_loop) run, v', omega arith)
              ]
        ]
      ]

  -- Reading from a socket ends, takes at most 32 packets, and neither reads nor forwards anything behind
  -- the end of a packet, whatever bytes wait there, where the preprocessors make bytes of bytes, whatever else they and the
  -- registered functions do; well formed duplicate sets stay so, and no output buffer that is not too
  -- full is filled with more than it has room for.
  pub olsr_input_ends :
      (waiting : List Received) (d : Daemon S)
      → All KeepsBytes preprocessor_functions
      → All (λ r. IsBytes (some r.packet)) waiting
      → IsDaemon d
      → (d' : Daemon S) × (left : List Received) × (olsr_input waiting d ≡ some (d', left))
        × IsDaemon d'
        × (length waiting ≤ length left + 32)
  unfolding olsr_input
  olsr_input_ends = input_loop-Ends 32
