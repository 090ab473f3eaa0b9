-- ===== src/Duplicate/Invariant.antt =====
-- The shape of the two sets: entries in ascending key order, each field within its width.
use olsr.Prelude.{
  ℕ, ◌*◌, ◌^◌, ◌≤◌, ◌<◌, ◌≡◌, refl, arith, inl, inr, if_rule, Bool, true, false, Option-cases, some,
  none, List, [], ◌∷◌, All, ◌==◌, if◌then◌else◌,
}
use olsr.Prelude.Bits.{bit_or-lt}
use olsr.Clock.{u32}
use olsr.Timer.{Env}
use olsr.Duplicate.Set.{check_tree_new, check_tree_found, fresh_entry-ip}
use olsr.Duplicate.{
  Verdict, DupEntry, DuplicateSet, check_too_low, check_window, advance, check_entry, refresh,
  fresh_entry, find_entry, store_entry, insert_entry, check_tree, is_duplicate_message,
  delete_entry, delete_all, flush_duplicate_entries, init_duplicate_set,
}

pub record IsValidEntry (e : DupEntry) : Type 0 where
  pub seqnr_fits : e.seqnr < 2 ^ 16
  pub counter_small : e.too_low_counter ≤ 16
  pub array_fits : e.array < 2 ^ 32

-- Every key is above `ip`.
abbrev pub Above : ℕ → List DupEntry → Type 0
Above ip es = All (λ e. ip < e.ip) es

abbrev pub IsTree : List DupEntry → Type 0
IsTree [] = Unit {0}
IsTree (e ∷ es) = IsValidEntry e × Above e.ip es × IsTree es

pub record IsValid (sets : DuplicateSet) : Type 0 where
  pub forward_tree : IsTree sets.forward_set
  pub processing_tree : IsTree sets.processing_set

check_too_low-IsValidEntry :
    (e : DupEntry) (s : ℕ) → s < 2 ^ 16 → IsValidEntry e → IsValidEntry (check_too_low s e).0
unfolding check_too_low
check_too_low-IsValidEntry e s f v = ground arith

check_window-IsValidEntry :
    (e : DupEntry) (back : ℕ) → IsValidEntry e → IsValidEntry (check_window back e).0
unfolding check_window
check_window-IsValidEntry e back v = ground (arith, bit_or-lt 32 e.array (u32 (1 * 2 ^ back)))

advance-IsValidEntry :
    (e : DupEntry) (s ahead : ℕ) → s < 2 ^ 16 → IsValidEntry e → IsValidEntry (advance s ahead e).0
unfolding advance
advance-IsValidEntry e s ahead f v =
    ground (arith, bit_or-lt 32 0 1, bit_or-lt 32 (u32 (e.array * 2 ^ ahead)) 1)

check_entry-IsValidEntry :
    (e : DupEntry) (s : ℕ) → s < 2 ^ 16 → IsValidEntry e → IsValidEntry (check_entry s e).0
unfolding check_entry
check_entry-IsValidEntry e s f v =
    let P = λ (r : DupEntry × Verdict). IsValidEntry r.0 in
    if_rule P _ _ _ (check_too_low-IsValidEntry e s f v)
      (if_rule P _ _ _ (check_window-IsValidEntry e _ v) (advance-IsValidEntry e s _ f v))

check_entry_ip : (e : DupEntry) (s : ℕ) → (check_entry s e).0.ip ≡ e.ip
unfolding check_entry check_too_low check_window advance
check_entry_ip e s = ground arith

refresh-IsValidEntry : (env : Env) (e : DupEntry) → IsValidEntry e → IsValidEntry (refresh env e)
unfolding refresh
refresh-IsValidEntry env e v = ground arith

fresh_entry-IsValidEntry : (env : Env) (ip s : ℕ) → s < 2 ^ 16 → IsValidEntry (fresh_entry env ip s)
unfolding fresh_entry
fresh_entry-IsValidEntry env ip s f = omega arith

Above-insert_entry :
    (ip : ℕ) (entry : DupEntry) (es : List DupEntry)
    → ip < entry.ip
    → Above ip es
    → Above ip (insert_entry entry es)
unfolding insert_entry
Above-insert_entry ip entry [] h a = (h, tt)
Above-insert_entry ip entry (e ∷ es) h a = ground (arith, Above-insert_entry ip entry es h a.1)

Above-mono : (low high : ℕ) (es : List DupEntry) → low < high → Above high es → Above low es
Above-mono low high [] h a = tt
Above-mono low high (e ∷ es) h a = (omega arith, Above-mono low high es h a.1)

insert_entry-IsTree :
    (entry : DupEntry) (es : List DupEntry)
    → find_entry entry.ip es ≡ none
    → IsValidEntry entry
    → IsTree es
    → IsTree (insert_entry entry es)
unfolding insert_entry find_entry
insert_entry-IsTree entry [] h v t = (v, tt, tt)
insert_entry-IsTree entry (e ∷ es) h v t = ground (
  arith,
  insert_entry-IsTree entry es,
  Above-insert_entry e.ip entry es,
  Above-mono entry.ip e.ip es,
)

Above-store_entry :
    (ip : ℕ) (entry : DupEntry) (es : List DupEntry) → Above ip es → Above ip (store_entry entry es)
unfolding store_entry
Above-store_entry ip entry [] a = tt
Above-store_entry ip entry (e ∷ es) a = ground (arith, Above-store_entry ip entry es a.1)

store_entry-IsTree :
    (entry : DupEntry) (es : List DupEntry)
    → IsValidEntry entry
    → IsTree es
    → IsTree (store_entry entry es)
unfolding store_entry
store_entry-IsTree entry [] v t = tt
store_entry-IsTree entry (e ∷ es) v t =
    ground (arith, store_entry-IsTree entry es, Above-store_entry e.ip entry es)

find_entry-IsValidEntry :
    (ip : ℕ) (es : List DupEntry) (e : DupEntry)
    → find_entry ip es ≡ some e
    → IsTree es
    → IsValidEntry e
unfolding find_entry
find_entry-IsValidEntry ip [] e h t = cc
find_entry-IsValidEntry ip (x ∷ es) e h t = ground (arith, find_entry-IsValidEntry ip es e)

check_tree-IsTree :
    (env : Env) (ip s : ℕ) (es : List DupEntry)
    → s < 2 ^ 16
    → IsTree es
    → IsTree (check_tree env ip s es).0
check_tree-IsTree env ip s es f t = elim (Option-cases (find_entry ip es)) [
  | inl e ↦ rw (check_tree_new env ip s es e) (
      insert_entry-IsTree (fresh_entry env ip s) es (rw fresh_entry-ip e)
        (fresh_entry-IsValidEntry env ip s f) t)
  | inr (x, e) ↦ rw (check_tree_found env ip s es x e) (
      store_entry-IsTree _ es
        (check_entry-IsValidEntry (refresh env x) s f
          (refresh-IsValidEntry env x (find_entry-IsValidEntry ip es x e t)))
        t)
]

-- Every call keeps the two sets well formed.
pub is_duplicate_message-IsValid :
    (env : Env) (originator seqno : ℕ) (forwarding : Bool) (sets : DuplicateSet)
    → seqno < 2 ^ 16
    → IsValid sets
    → IsValid (is_duplicate_message env originator seqno forwarding sets).0
unfolding is_duplicate_message
is_duplicate_message-IsValid env originator seqno true sets f v = record {
  forward_tree = check_tree-IsTree env originator seqno sets.forward_set f v.forward_tree;
  processing_tree = v.processing_tree;
}
is_duplicate_message-IsValid env originator seqno false sets f v = record {
  forward_tree = v.forward_tree;
  processing_tree = check_tree-IsTree env originator seqno sets.processing_set f v.processing_tree;
}

Above-delete_entry :
    (ip key : ℕ) (es : List DupEntry) → Above ip es → Above ip (delete_entry key es)
unfolding delete_entry
Above-delete_entry ip key [] a = tt
Above-delete_entry ip key (e ∷ es) a = ground (arith, Above-delete_entry ip key es a.1)

find_entry-Above : (ip : ℕ) (es : List DupEntry) → Above ip es → find_entry ip es ≡ none
unfolding find_entry
find_entry-Above ip [] a = refl
find_entry-Above ip (e ∷ es) a = ground (arith, find_entry-Above ip es a.1)

delete_entry-IsTree : (key : ℕ) (es : List DupEntry) → IsTree es → IsTree (delete_entry key es)
unfolding delete_entry
delete_entry-IsTree key [] t = tt
delete_entry-IsTree key (e ∷ es) t =
    ground (arith, delete_entry-IsTree key es, Above-delete_entry e.ip key es)

find_entry-delete_entry :
    (key other : ℕ) (es : List DupEntry)
    → IsTree es
    → find_entry other (delete_entry key es) ≡ (if other == key then none else find_entry other es)
unfolding find_entry delete_entry
find_entry-delete_entry key other [] t = ground arith
find_entry-delete_entry key other (e ∷ es) t =
    ground (arith, find_entry-delete_entry key other es t.2, find_entry-Above other es)

-- The expiry of an entry's timer keeps its tree well formed, forgets that originator and no other.
pub delete_entry_forgets :
    (key other : ℕ) (es : List DupEntry)
    → IsTree es
    → IsTree (delete_entry key es)
      × (find_entry other (delete_entry key es)
          ≡ (if other == key then none else find_entry other es))
delete_entry_forgets key other es t =
    (delete_entry-IsTree key es t, find_entry-delete_entry key other es t)

delete_all_es : (es : List DupEntry) → delete_all es es ≡ []
unfolding delete_all delete_entry
delete_all_es [] = refl
delete_all_es (e ∷ es) = ground (arith, delete_all_es es)

-- A flush leaves both sets as they are after the start.
pub flush_duplicate_entries-init :
    (sets : DuplicateSet) → flush_duplicate_entries sets ≡ init_duplicate_set
unfolding flush_duplicate_entries init_duplicate_set
flush_duplicate_entries-init sets =
    rw (delete_all_es sets.forward_set, delete_all_es sets.processing_set) refl
