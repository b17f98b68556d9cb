-- ===== src/Agent/Connections/Migrated.antt =====
-- `Load` of agent/connections/connections.go: where the secrets of the registry stand after it.
use nuzur_cli.Deploy.Store.{unreadable}
use nuzur_cli.Base.{
  ◌≡◌, refl, Bool, true, false, List, [], ◌∷◌, Option, none, some, ◌⊎◌, inl, inr, Bool-cases,
  Option-cases, is_nil, All, subst, sym,
}
use nuzur_cli.Text.{Text}
use nuzur_cli.Agent.Connections.{
  Entry, stored_entries, Keychain, RegistryFile, missing, unparsable, holds, Disk, Failures,
  RegistryError, migrating, resolving, parsing, rewriting, save, save_leaving, kept_entry,
  moved_entry, migrate, cons_resolved, resolve, resolve_saved, finish_load, load_file, load,
  put_dsn, get_dsn, unreadable, reading,
}

-- No secret in the old place.
abbrev pub IsClean : Entry → Type 0
IsClean e = e.legacy_dsn ≡ []

abbrev pub FileClean : RegistryFile → Type 0
FileClean missing = Unit
FileClean unreadable = ⊥
FileClean unparsable = ⊥
FileClean (holds es) = All IsClean es

-- The call that an error is for did fail.
abbrev pub Blamed : Failures → RegistryFile → RegistryError → Type 0
Blamed f file (migrating name) = (uuid : Text) × (e : Text) × (f.put_error uuid ≡ some e)
Blamed f file (resolving name) = (uuid : Text) × (e : Text) × (f.get_error uuid ≡ some e)
Blamed f file reading = file ≡ unreadable
Blamed f file parsing = file ≡ unparsable
Blamed f file rewriting = (left : RegistryFile → RegistryFile) × (f.save_leaves ≡ some left)
Blamed f file _ = ⊥

abbrev pub Loaded : Failures → RegistryFile → (RegistryError ⊎ List Entry) × Disk → Type 0
Loaded f file (inl err, d) = Blamed f file err
Loaded f file (inr es, d) = All IsClean es × FileClean d.file

-- What `migrate` gives of entries: clean ones, which are the same if none was moved.
abbrev Moved : Failures → List Entry → RegistryError ⊎ (List Entry × Bool) → Type 0
Moved f es (inl err) = (file : RegistryFile) → Blamed f file err
Moved f es (inr (moved, migrated)) = All IsClean moved × (migrated ≡ false → moved ≡ es)

kept_entry-Moved :
    (f : Failures) (e : Entry) (es : List Entry) (r : RegistryError ⊎ (List Entry × Bool))
    → IsClean e
    → Moved f es r
    → Moved f (e ∷ es) (kept_entry e r)
unfolding kept_entry
kept_entry-Moved f e es (inl err) c h = h
kept_entry-Moved f e es (inr (moved, migrated)) c h = ((c, h.0), λ still. rw (h.1 still) refl)

moved_entry-Moved :
    (f : Failures) (e : Entry) (es : List Entry) (r : RegistryError ⊎ (List Entry × Bool))
    → Moved f es r
    → Moved f (e ∷ es) (moved_entry e r)
unfolding moved_entry
moved_entry-Moved f e es (inl err) h = h
moved_entry-Moved f e es (inr (moved, migrated)) h = ((refl, h.0), λ still. cc)

is_nil-eq : (s : Text) → is_nil s ≡ true → s ≡ []
is_nil-eq [] h = refl
is_nil-eq (c ∷ s) h = cc

migrate-Moved :
    (f : Failures) (es : List Entry) (secrets : Keychain) → Moved f es (migrate f es secrets).0
unfolding migrate
migrate-Moved f [] secrets = (tt, λ still. refl)
migrate-Moved f (e ∷ es) secrets = elim (Bool-cases (is_nil e.legacy_dsn)) [
  | inl plain ↦ rw plain (
      kept_entry-Moved f e es (migrate f es secrets).0 (is_nil-eq e.legacy_dsn plain)
        (migrate-Moved f es secrets))
  | inr secret ↦ elim (Option-cases (f.put_error e.uuid)) [
    | inl fine ↦ rw secret (
        rw fine (
          moved_entry-Moved f e es (migrate f es (put_dsn e.uuid e.legacy_dsn secrets)).0
            (migrate-Moved f es (put_dsn e.uuid e.legacy_dsn secrets))))
    | inr (err, failed) ↦ rw secret (rw failed (λ file. (e.uuid, err, failed)))
  ]
]

stored_entries-IsClean : (es : List Entry) → All IsClean es → All IsClean (stored_entries es)
stored_entries-IsClean [] h = h
stored_entries-IsClean (e ∷ es) h = (h.0, stored_entries-IsClean es h.1)

-- What `resolve` gives of clean entries.
abbrev Resolved : Failures → RegistryError ⊎ List Entry → Type 0
Resolved f (inl err) = (file : RegistryFile) → Blamed f file err
Resolved f (inr es) = All IsClean es

cons-Resolved :
    (f : Failures) (e : Entry) (r : RegistryError ⊎ List Entry)
    → IsClean e
    → Resolved f r
    → Resolved f (cons_resolved e r)
unfolding cons_resolved
cons-Resolved f e (inl err) c h = h
cons-Resolved f e (inr es) c h = (c, h)

resolve-Resolved :
    (f : Failures) (secrets : Keychain) (es : List Entry)
    → All IsClean es
    → Resolved f (resolve f secrets es)
unfolding resolve
resolve-Resolved f secrets [] h = tt
resolve-Resolved f secrets (e ∷ es) h = elim (Bool-cases (is_nil e.dsn)) [
  | inr given ↦
      rw given (cons-Resolved f e (resolve f secrets es) h.0 (resolve-Resolved f secrets es h.1))
  | inl lacking ↦ elim (Option-cases (f.get_error e.uuid)) [
    | inl fine ↦ rw lacking (
        rw fine (
          cons-Resolved f (record e { dsn = get_dsn e.uuid secrets }) (resolve f secrets es) h.0
            (resolve-Resolved f secrets es h.1)))
    | inr (err, failed) ↦ rw lacking (rw failed (λ file. (e.uuid, err, failed)))
  ]
]

resolved-Loaded :
    (f : Failures) (file : RegistryFile) (r : RegistryError ⊎ List Entry) (d : Disk)
    → Resolved f r
    → FileClean d.file
    → Loaded f file (r, d)
resolved-Loaded f file (inl err) d h clean = h file
resolved-Loaded f file (inr es) d h clean = (h, clean)

saved-Loaded :
    (f : Failures) (file : RegistryFile) (es : List Entry) (d : Disk)
    (s : Option (RegistryFile → RegistryFile))
    → f.save_leaves ≡ s
    → All IsClean es
    → Loaded f file (resolve_saved f es (save_leaving s es d))
unfolding save_leaving resolve_saved
saved-Loaded f file es d (some left) failed h = (left, failed)
saved-Loaded f file es d none fine h =
    resolved-Loaded f file (resolve f d.keychain es) (record d { file = holds (stored_entries es) })
      (resolve-Resolved f d.keychain es h) (stored_entries-IsClean es h)

finish-Loaded :
    (f : Failures) (es : List Entry) (r : RegistryError ⊎ (List Entry × Bool)) (d : Disk)
    → d.file ≡ holds es
    → Moved f es r
    → Loaded f (holds es) (finish_load f r d)
unfolding finish_load resolve_saved save
finish-Loaded f es (inl err) d here h = h (holds es)
finish-Loaded f es (inr (moved, true)) d here h =
    saved-Loaded f (holds es) moved d f.save_leaves refl h.0
finish-Loaded f es (inr (moved, false)) d here h =
    resolved-Loaded f (holds es) (resolve f d.keychain moved) d
      (resolve-Resolved f d.keychain moved h.0)
      (subst FileClean (sym here) (subst (All IsClean) (h.1 refl) h.0))

load_file-Loaded :
    (f : Failures) (d : Disk) (file : RegistryFile)
    → d.file ≡ file
    → Loaded f file (load_file f file d)
unfolding load_file
load_file-Loaded f d missing here = (tt, subst FileClean (sym here) tt)
load_file-Loaded f d unreadable here = refl
load_file-Loaded f d unparsable here = refl
load_file-Loaded f d (holds es) here =
    finish-Loaded f es (migrate f es d.keychain).0 _ here (migrate-Moved f es d.keychain)

-- `Load` of the registry gives an error only for a file that is there and cannot be read, for one that does not parse, or for a call of the keychain or the file
-- system that failed. Otherwise it gives entries, and no source name is left in plain text where old versions
-- kept it: neither in the entries nor in the file.
pub load-Loaded : (f : Failures) (d : Disk) → Loaded f d.file (load f d)
unfolding load
load-Loaded f d = load_file-Loaded f d d.file refl
