-- ===== src/Duplicate.antt =====
-- duplicate_set.c: which messages this node has processed or forwarded before. An `avl_tree` is the
-- list of its entries in key order, and an address stands for its place in that order. Allocation
-- does not fail: `olsr_malloc` ends the program instead.
pub mod Seqno
pub mod Window
pub mod Entry
pub mod Set
pub mod Invariant
mod Tests
use olsr.Prelude.{
  ℕ, ◌+◌, ◌-◌, ◌*◌, ◌%◌, ◌^◌, bit_and, bit_or, ltb, leb, ◌==◌, if◌then◌else◌, Bool, true, false,
  Option, none, some, List, [], ◌∷◌,
}
use olsr.Prelude.Int.{ℤ, pos, negsuc, pos_part, neg_part, sub_ℕ, ◌+ℤ◌, ◌-ℤ◌, leb_ℤ, ltb_ℤ}
use olsr.Clock.{u32}
use olsr.Timer.{Env, TimerEntry}
use olsr.Timer

-- `olsr_seqno_diff`.
unfoldable pub seqno_diff : ℕ → ℕ → ℤ
seqno_diff reference other =
    let diff = sub_ℕ reference other in
    if leb_ℤ (pos (2 ^ 15)) diff
    then diff -ℤ pos (2 ^ 16)
    else if ltb_ℤ diff (negsuc (2 ^ 15 - 1))
    then diff +ℤ pos (2 ^ 16)
    else diff

-- `struct dup_entry`.
pub record DupEntry : Type 0 where
  pub ip : ℕ
  pub seqnr : ℕ
  pub too_low_counter : ℕ
  pub array : ℕ
  pub validity_timer : Option TimerEntry

-- `enum duplicate_status`.
pub data Status : Type 0 where
  reset_seqno new old duplicate too_old : Status

-- What a call of `olsr_is_duplicate_message` says: its result and `*status`.
pub record Verdict : Type 0 where
  pub is_duplicate : Bool
  pub status : Status

-- `forward_set` and `processing_set`.
pub record DuplicateSet : Type 0 where
  pub forward_set : List DupEntry
  pub processing_set : List DupEntry

-- `DUPLICATE_CLEANUP_INTERVAL` and `DUPLICATE_CLEANUP_JITTER`.
abbrev pub cleanup_interval : ℕ
cleanup_interval = 30000

abbrev pub cleanup_jitter : ℕ
cleanup_jitter = 25

-- `olsr_create_duplicate_entry`.
unfoldable pub create_entry : ℕ → ℕ → DupEntry
create_entry ip seqnr = record {
  ip = ip;
  seqnr = seqnr;
  too_low_counter = 0;
  array = 0;
  validity_timer = none;
}

-- The part of `olsr_is_duplicate_message` where `diff < -31`.
unfoldable pub check_too_low : ℕ → DupEntry → DupEntry × Verdict
check_too_low seqno entry =
    let count = (entry.too_low_counter + 1) % 2 ^ 16 in
    if ltb 16 count
    then (
      record entry { too_low_counter = 0; seqnr = seqno; array = 1 },
      record { is_duplicate = false; status = reset_seqno },
    )
    else (
      record entry { too_low_counter = count },
      record { is_duplicate = true; status = too_old },
    )

-- The part where `-31 <= diff <= 0`: `back` is `-diff`.
unfoldable pub check_window : ℕ → DupEntry → DupEntry × Verdict
check_window back entry =
    let bitmask = u32 (1 * 2 ^ back) in
    if bit_and entry.array bitmask == 0
    then (
      record entry { too_low_counter = 0; array = bit_or entry.array bitmask },
      record { is_duplicate = false; status = old },
    )
    else (record entry { too_low_counter = 0 }, record { is_duplicate = true; status = duplicate })

-- The part where `0 < diff`: the window moves ahead by `ahead`.
unfoldable pub advance : ℕ → ℕ → DupEntry → DupEntry × Verdict
advance seqno ahead entry =
    let shifted = if ltb ahead 32 then u32 (entry.array * 2 ^ ahead) else 0 in
    (
      record entry { too_low_counter = 0; array = bit_or shifted 1; seqnr = seqno },
      record { is_duplicate = false; status = new },
    )

-- What the call does with an entry that is there, behind the refresh of its timer.
unfoldable pub check_entry : ℕ → DupEntry → DupEntry × Verdict
check_entry seqno entry =
    let diff = seqno_diff seqno entry.seqnr in
    if ltb_ℤ diff (negsuc 30)
    then check_too_low seqno entry
    else if leb_ℤ diff (pos 0)
    then check_window (neg_part diff) entry
    else advance seqno (pos_part diff) entry

-- `olsr_timer_change` of its timer.
unfoldable pub refresh : Env → DupEntry → DupEntry
refresh env entry = record entry {
  validity_timer = elim entry.validity_timer [
    | none ↦ none
    | some t ↦ some (Timer.change env cleanup_interval cleanup_jitter t)
  ];
}

-- `avl_find`.
unfoldable pub find_entry : ℕ → List DupEntry → Option DupEntry
find_entry ip [] = none
find_entry ip (e ∷ es) = if e.ip == ip then some e else find_entry ip es

-- The effect of writes through a pointer to the entry that `avl_find` gave.
unfoldable pub store_entry : DupEntry → List DupEntry → List DupEntry
store_entry entry [] = []
store_entry entry (e ∷ es) = if e.ip == entry.ip then entry ∷ es else e ∷ store_entry entry es

-- `avl_insert` of an entry whose key is not there.
unfoldable pub insert_entry : DupEntry → List DupEntry → List DupEntry
insert_entry entry [] = entry ∷ []
insert_entry entry (e ∷ es) =
    if ltb entry.ip e.ip then entry ∷ e ∷ es else e ∷ insert_entry entry es

-- The entry that the call makes for a new originator, with its timer running.
unfoldable pub fresh_entry : Env → ℕ → ℕ → DupEntry
unfolding create_entry
fresh_entry env originator seqno = record (create_entry originator seqno) {
  validity_timer = some (Timer.start env cleanup_interval cleanup_jitter false);
}

-- `olsr_is_duplicate_message` on the tree that it picks.
unfoldable pub check_tree : Env → ℕ → ℕ → List DupEntry → List DupEntry × Verdict
check_tree env originator seqno tree = elim (find_entry originator tree) [
  | none ↦ (
    insert_entry (fresh_entry env originator seqno) tree,
    record { is_duplicate = false; status = new },
  )
  | some entry ↦ let r = check_entry seqno (refresh env entry) in (store_entry r.0 tree, r.1)
]

-- `olsr_is_duplicate_message`, from the originator and the sequence number of the message.
unfoldable pub is_duplicate_message : Env → ℕ → ℕ → Bool → DuplicateSet → DuplicateSet × Verdict
is_duplicate_message env originator seqno forwarding sets =
    if forwarding
    then (let r = check_tree env originator seqno sets.forward_set in
        (record sets { forward_set = r.0 }, r.1))
    else (let r = check_tree env originator seqno sets.processing_set in
        (record sets { processing_set = r.0 }, r.1))

-- `olsr_delete_duplicate_entry`, which the expiry of the validity timer calls. The entry knows its
-- tree; here the key stands for the pointer.
unfoldable pub delete_entry : ℕ → List DupEntry → List DupEntry
delete_entry ip [] = []
delete_entry ip (e ∷ es) = if e.ip == ip then es else e ∷ delete_entry ip es

-- `olsr_init_duplicate_set`, and `olsr_flush_duplicate_entries`, which deletes all entries.
unfoldable pub init_duplicate_set : DuplicateSet
init_duplicate_set = record { forward_set = []; processing_set = [] }

delete_all : List DupEntry → List DupEntry → List DupEntry
delete_all [] tree = tree
delete_all (e ∷ es) tree = delete_all es (delete_entry e.ip tree)

unfoldable pub flush_duplicate_entries : DuplicateSet → DuplicateSet
unfolding delete_all delete_entry
flush_duplicate_entries sets = record {
  forward_set = delete_all sets.forward_set sets.forward_set;
  processing_set = delete_all sets.processing_set sets.processing_set;
}
