-- ===== src/Duplicate/Set.antt =====
-- `olsr_is_duplicate_message` on the two sets: repeated messages, first messages, and what a call
-- leaves alone.
use olsr.Prelude.{
  ℕ, ◌^◌, ◌<◌, ◌≡◌, ◌≢◌, refl, Option-cases, ◌==◌, if◌then◌else◌, Bool, true, false, not, arith,
  inl, inr, ◌∙◌, none, some, List, [], ◌∷◌, ap,
}
use olsr.Timer.{Env}
use olsr.Duplicate.{
  DupEntry, DuplicateSet, Verdict, old, new, check_too_low, check_window, advance, check_entry,
  seqno_diff, refresh, fresh_entry, find_entry, store_entry, insert_entry, check_tree,
  is_duplicate_message,
}
use olsr.Duplicate.Entry.{check_entry-ip, check_entry_twice}

find_entry-store_entry :
    (ip : ℕ) (entry : DupEntry) (tree : List DupEntry)
    → find_entry ip (store_entry entry tree) ≡ (
        if ip == entry.ip
        then (elim (find_entry ip tree) [ none ↦ none | some _ ↦ some entry ])
        else find_entry ip tree)
unfolding find_entry store_entry
find_entry-store_entry ip entry [] = ground arith
find_entry-store_entry ip entry (e ∷ es) = ground (arith, find_entry-store_entry ip entry es)

find_entry-insert_entry :
    (ip : ℕ) (entry : DupEntry) (tree : List DupEntry)
    → find_entry entry.ip tree ≡ none
    → find_entry ip (insert_entry entry tree)
      ≡ (if ip == entry.ip then some entry else find_entry ip tree)
unfolding find_entry insert_entry
find_entry-insert_entry ip entry [] h = ground arith
find_entry-insert_entry ip entry (e ∷ es) h = ground (arith, find_entry-insert_entry ip entry es)

find_entry_ip :
    (ip : ℕ) (tree : List DupEntry) (e : DupEntry) → find_entry ip tree ≡ some e → e.ip ≡ ip
unfolding find_entry
find_entry_ip ip [] e h = cc
find_entry_ip ip (x ∷ tree) e h = ground (arith, find_entry_ip ip tree e)

module _ (env : Env) (originator seqno : ℕ) (tree : List DupEntry) where
  pub check_tree_new :
      find_entry originator tree ≡ none
      → check_tree env originator seqno tree ≡ (
        insert_entry (fresh_entry env originator seqno) tree,
        record { is_duplicate = false; status = new },
      )
  unfolding check_tree
  check_tree_new h = rw (h, check_tree) refl

  pub check_tree_found :
      (e : DupEntry)
      → find_entry originator tree ≡ some e
      → check_tree env originator seqno tree ≡ (
        store_entry (check_entry seqno (refresh env e)).0 tree,
        (check_entry seqno (refresh env e)).1,
      )
  unfolding check_tree
  check_tree_found e h = rw (h, check_tree) refl

refresh_lem :
    (env : Env) (e : DupEntry)
    → ((refresh env e).ip ≡ e.ip)
      × ((refresh env e).seqnr ≡ e.seqnr)
      × ((refresh env e).array ≡ e.array)
      × ((refresh env e).too_low_counter ≡ e.too_low_counter)
unfolding refresh
refresh_lem env e = (refl, refl, refl, refl)

pub fresh_entry-ip :
    (env : Env) (originator seqno : ℕ) → (fresh_entry env originator seqno).ip ≡ originator
unfolding fresh_entry
fresh_entry-ip env originator seqno = refl

fresh_again :
    (env late : Env) (originator seqno : ℕ)
    → seqno < 2 ^ 16
    → (check_entry seqno (refresh late (fresh_entry env originator seqno))).1
      ≡ record { is_duplicate = false; status = old }
unfolding check_entry check_window refresh fresh_entry seqno_diff
fresh_again env late originator seqno f = ground arith

first_message_twice :
    (env late : Env) (originator seqno : ℕ) (tree : List DupEntry)
    → seqno < 2 ^ 16
    → find_entry originator tree ≡ none
    → ((check_tree env originator seqno tree).1 ≡ record { is_duplicate = false; status = new })
      × ((check_tree late originator seqno (check_tree env originator seqno tree).0).1
          ≡ record { is_duplicate = false; status = old })
first_message_twice env late originator seqno tree f h =
    let entry = fresh_entry env originator seqno in
    let first = check_tree_new env originator seqno tree h in
    let found : find_entry originator (insert_entry entry tree) ≡ some entry =
      find_entry-insert_entry originator entry tree (rw fresh_entry-ip h)
      ∙ ground (arith, fresh_entry-ip env originator seqno) in
    rw first (
      refl,
      ap (λ (r : List DupEntry × Verdict). r.1)
            (check_tree_found late originator seqno (insert_entry entry tree) entry found)
          ∙ fresh_again env late originator seqno f,
    )

check_tree-other :
    (env : Env) (originator seqno other : ℕ) (tree : List DupEntry)
    → other ≢ originator
    → find_entry other (check_tree env originator seqno tree).0 ≡ find_entry other tree
check_tree-other env originator seqno other tree ne =
    elim (Option-cases (find_entry originator tree)) [
      | inl e ↦ rw (check_tree_new env originator seqno tree e) (
          find_entry-insert_entry other (fresh_entry env originator seqno) tree
            (rw fresh_entry-ip e)
          ∙ ground (arith, fresh_entry-ip env originator seqno))
      | inr (x, e) ↦ rw (check_tree_found env originator seqno tree x e) (
          find_entry-store_entry other (check_entry seqno (refresh env x)).0 tree
          ∙ ground (
            arith,
            check_entry-ip (refresh env x) seqno,
            refresh_lem env x,
            find_entry_ip originator tree x e,
          ))
    ]

check_entry-refresh :
    (env : Env) (entry : DupEntry) (seqno : ℕ)
    → (check_entry seqno (refresh env entry)).1 ≡ (check_entry seqno entry).1
unfolding check_entry check_too_low check_window advance refresh
check_entry-refresh env entry seqno = ground arith

check_tree_repeated :
    (env late : Env) (originator seqno : ℕ) (tree : List DupEntry) (entry : DupEntry)
    → find_entry originator tree ≡ some entry
    → entry.seqnr < 2 ^ 16
    → seqno < 2 ^ 16
    → (check_tree env originator seqno tree).1.is_duplicate ≡ false
    → (check_tree late originator seqno (check_tree env originator seqno tree).0).1.is_duplicate
      ≡ true
check_tree_repeated env late originator seqno tree entry found valid f accepted =
    let e = refresh env entry in
    let e' = (check_entry seqno e).0 in
    let one = check_tree_found env originator seqno tree entry found in
    let same : e'.ip ≡ originator =
      check_entry-ip e seqno
      ∙ ((refresh_lem env entry).0 ∙ find_entry_ip originator tree entry found) in
    let stored : find_entry originator (store_entry e' tree) ≡ some e' =
      find_entry-store_entry originator e' tree ∙ ground (arith, same, found) in
    let two = check_tree_found late originator seqno (store_entry e' tree) e' stored in
    let valid' : e.seqnr < 2 ^ 16 = rw (refresh_lem env entry).1 valid in
    rw (one, two, check_entry-refresh late e' seqno)
      (check_entry_twice e seqno valid' f (rw one at accepted))

-- The tree that a call with this flag works on.
abbrev pub tree_of : Bool → DuplicateSet → List DupEntry
tree_of forwarding sets = if forwarding then sets.forward_set else sets.processing_set

is_duplicate_message-tree :
    (env : Env) (originator seqno : ℕ) (forwarding : Bool) (sets : DuplicateSet)
    → (tree_of forwarding (is_duplicate_message env originator seqno forwarding sets).0
        ≡ (check_tree env originator seqno (tree_of forwarding sets)).0)
      × (tree_of (not forwarding) (is_duplicate_message env originator seqno forwarding sets).0
          ≡ tree_of (not forwarding) sets)
      × ((is_duplicate_message env originator seqno forwarding sets).1
          ≡ (check_tree env originator seqno (tree_of forwarding sets)).1)
unfolding is_duplicate_message
is_duplicate_message-tree env originator seqno true sets = (refl, refl, refl)
is_duplicate_message-tree env originator seqno false sets = (refl, refl, refl)

-- A call changes nothing in the other tree, and in its own tree no entry but the originator's.
pub is_duplicate_message_frame :
    (env : Env) (originator seqno other : ℕ) (forwarding : Bool) (sets : DuplicateSet)
    → other ≢ originator
    → (find_entry other
          (tree_of forwarding (is_duplicate_message env originator seqno forwarding sets).0)
        ≡ find_entry other (tree_of forwarding sets))
      × (tree_of (not forwarding) (is_duplicate_message env originator seqno forwarding sets).0
          ≡ tree_of (not forwarding) sets)
is_duplicate_message_frame env originator seqno other forwarding sets ne =
    let (own, rest, _) = is_duplicate_message-tree env originator seqno forwarding sets in
    (rw own (check_tree-other env originator seqno other (tree_of forwarding sets) ne), rest)

-- A message of an originator that has an entry yet: if it is accepted, it is called a duplicate when
-- it comes once more.
pub is_duplicate_message_repeated :
    (env late : Env) (originator seqno : ℕ) (forwarding : Bool) (sets : DuplicateSet)
    (entry : DupEntry)
    → find_entry originator (tree_of forwarding sets) ≡ some entry
    → entry.seqnr < 2 ^ 16
    → seqno < 2 ^ 16
    → (is_duplicate_message env originator seqno forwarding sets).1.is_duplicate ≡ false
    → (is_duplicate_message late originator seqno forwarding
        (is_duplicate_message env originator seqno forwarding sets).0).1.is_duplicate
      ≡ true
is_duplicate_message_repeated env late originator seqno forwarding sets entry found valid f
      accepted =
    let (own, _, verdict) = is_duplicate_message-tree env originator seqno forwarding sets in
    let after = (is_duplicate_message env originator seqno forwarding sets).0 in
    let (_, _, verdict') = is_duplicate_message-tree late originator seqno forwarding after in
    rw (verdict', own)
      (check_tree_repeated env late originator seqno (tree_of forwarding sets) entry found valid f
        (rw verdict at accepted))

-- The first message of an originator is accepted as new, and the same message is accepted once more,
-- as an old one, when it comes again.
pub is_duplicate_message_first :
    (env late : Env) (originator seqno : ℕ) (forwarding : Bool) (sets : DuplicateSet)
    → find_entry originator (tree_of forwarding sets) ≡ none
    → seqno < 2 ^ 16
    → ((is_duplicate_message env originator seqno forwarding sets).1
        ≡ record { is_duplicate = false; status = new })
      × ((is_duplicate_message late originator seqno forwarding
            (is_duplicate_message env originator seqno forwarding sets).0).1
          ≡ record { is_duplicate = false; status = old })
is_duplicate_message_first env late originator seqno forwarding sets missing f =
    let (own, _, verdict) = is_duplicate_message-tree env originator seqno forwarding sets in
    let after = (is_duplicate_message env originator seqno forwarding sets).0 in
    let (_, _, verdict') = is_duplicate_message-tree late originator seqno forwarding after in
    let (a, b) =
      first_message_twice env late originator seqno (tree_of forwarding sets) f missing in
    (verdict ∙ a, verdict' ∙ rw own b)
