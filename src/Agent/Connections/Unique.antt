-- ===== src/Agent/Connections/Unique.antt =====
-- `Add` and `Remove` of agent/connections/connections.go in any order.
use nuzur_cli.Base.{
  ◌≡◌, refl, ◌∙◌, false, List, [], ◌∷◌, ◌++◌, none, inl, inr, arith, Bool-cases, Option-cases,
  is_nil,
}
use nuzur_cli.Text.{Text, equal, equal_fold, to_lower, trim_space}
use nuzur_cli.Agent.Connections.{
  Entry, Keychain, Failures, find_by_name, with_uuid, append_entry, add_entry, is_named,
  remove_entry,
}

-- No two entries have a name that is the same up to case.
abbrev pub Distinct : List Entry → Type 0
Distinct [] = Unit
Distinct (e ∷ es) = (find_by_name e.name es ≡ none) × Distinct es

equal_comm : (s t : Text) → equal s t ≡ equal t s
unfolding equal
equal_comm [] [] = refl
equal_comm [] (c ∷ t) = refl
equal_comm (c ∷ s) [] = refl
equal_comm (c ∷ s) (x ∷ t) = ground (arith, equal_comm s t)

fold_comm : (s t : Text) → equal_fold s t ≡ equal_fold t s
unfolding equal_fold
fold_comm s t = equal_comm (to_lower s) (to_lower t)

find-append :
    (name : Text) (es : List Entry) (n : Entry)
    → find_by_name name es ≡ none
    → equal_fold n.name name ≡ false
    → find_by_name name (es ++ (n ∷ [])) ≡ none
unfolding find_by_name
find-append name [] n h other = rw other refl
find-append name (e ∷ es) n h other = ground (arith, find-append name es n)

append-Distinct :
    (es : List Entry) (n : Entry)
    → Distinct es
    → find_by_name n.name es ≡ none
    → Distinct (es ++ (n ∷ []))
unfolding find_by_name
append-Distinct [] n d new = (refl, tt)
append-Distinct (e ∷ es) n d new =
    let apart : equal_fold n.name e.name ≡ false = fold_comm n.name e.name ∙ ground (arith, new) in
    (find-append e.name es n d.0 apart, append-Distinct es n d.1 (ground (arith, new)))

-- The entry that `Add` appends has the name that it looked for.
appended-Distinct :
    (f : Failures) (e : Entry) (es : List Entry) (secrets : Keychain)
    → Distinct es
    → find_by_name e.name es ≡ none
    → Distinct (append_entry f e es secrets).1.0
unfolding append_entry
appended-Distinct f e es secrets d new = elim (Bool-cases (is_nil e.dsn)) [
  | inl bare ↦ rw bare (append-Distinct es (record e { legacy_dsn = [] }) d new)
  | inr secret ↦ elim (Option-cases (f.put_error e.uuid)) [
    | inl fine ↦ rw secret (rw fine (append-Distinct es (record e { legacy_dsn = [] }) d new))
    | inr (err, failed) ↦ rw secret (rw failed d)
  ]
]

add_entry-Distinct :
    (f : Failures) (fresh : Text) (e : Entry) (es : List Entry) (secrets : Keychain)
    → Distinct es
    → Distinct (add_entry f fresh e es secrets).1.0
unfolding add_entry
add_entry-Distinct f fresh e es secrets d = elim (Bool-cases (is_nil (trim_space e.name))) [
  | inl blank ↦ rw blank d
  | inr named ↦ elim (Option-cases (find_by_name e.name es)) [
    | inl new ↦ rw named (rw new (appended-Distinct f (with_uuid fresh e) es secrets d new))
    | inr (dup, there) ↦ rw named (rw there d)
  ]
]

remove_entry-find :
    (f : Failures) (id : Text) (es : List Entry) (secrets : Keychain) (name : Text)
    → find_by_name name es ≡ none
    → find_by_name name (remove_entry f id es secrets).1.0 ≡ none
unfolding remove_entry find_by_name
remove_entry-find f id [] secrets name h = refl
remove_entry-find f id (e ∷ es) secrets name h =
    ground (arith, remove_entry-find f id es secrets name, h)

remove_entry-Distinct :
    (f : Failures) (id : Text) (es : List Entry) (secrets : Keychain)
    → Distinct es
    → Distinct (remove_entry f id es secrets).1.0
unfolding remove_entry
remove_entry-Distinct f id [] secrets d = tt
remove_entry-Distinct f id (e ∷ es) secrets d = elim (Bool-cases (is_named id e)) [
  | inl this ↦ elim (Option-cases (f.delete_error e.uuid)) [
    | inl fine ↦ rw this (rw fine d.1)
    | inr (err, failed) ↦ rw this (rw failed d)
  ]
  | inr other ↦
      rw other
        (remove_entry-find f id es secrets e.name d.0, remove_entry-Distinct f id es secrets d.1)
]

-- The calls on a registry, each with the failures of its time.
pub data Call : Type 0 where
  adds : Failures → (fresh : Text) → Entry → Call
  removes : Failures → (id : Text) → Call

abbrev pub called : Call → List Entry × Keychain → List Entry × Keychain
called (adds f fresh e) (es, secrets) = (add_entry f fresh e es secrets).1
called (removes f id) (es, secrets) = (remove_entry f id es secrets).1

-- The first call of the list is the last one made.
abbrev pub after : List Call → List Entry × Keychain → List Entry × Keychain
after [] r = r
after (c ∷ cs) r = called c (after cs r)

-- Whatever connections are added and removed, and whatever calls of the keychain fail, a registry of distinct names keeps
-- distinct names, up to case.
pub after-Distinct :
    (calls : List Call) (es : List Entry) (secrets : Keychain)
    → Distinct es
    → Distinct (after calls (es, secrets)).0
after-Distinct [] es secrets d = d
after-Distinct (adds f fresh e ∷ cs) es secrets d =
    add_entry-Distinct f fresh e (after cs (es, secrets)).0 (after cs (es, secrets)).1
      (after-Distinct cs es secrets d)
after-Distinct (removes f id ∷ cs) es secrets d =
    remove_entry-Distinct f id (after cs (es, secrets)).0 (after cs (es, secrets)).1
      (after-Distinct cs es secrets d)
