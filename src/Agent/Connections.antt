-- ===== src/Agent/Connections.antt =====
-- agent/connections/connections.go: the registry of local databases. The file is the list of its entries, none
-- where there is no file; the keychain is the list of its secrets, of which the first one for a key
-- counts. Whether a call of the keychain or of the file system fails is an argument.
pub mod Migrated
pub mod Unique
mod Tests
use nuzur_cli.Base.{
  ℕ, Bool, true, false, not, ◌||◌, List, [], ◌∷◌, ◌++◌, Option, none, some, ◌⊎◌, inl, inr,
  if◌then◌else◌, is_nil,
}
use nuzur_cli.Text.{Text, equal, equal_fold, trim_space}

pub record Entry : Type 0 where
  pub uuid : Text
  pub name : Text
  pub driver : Text
  pub db_type : ℕ
  pub dsn : Text
  pub default_schema : Text
  pub legacy_dsn : Text

-- A database source name is kept out of the file.
abbrev pub stored_entries : List Entry → List Entry
stored_entries [] = []
stored_entries (e ∷ es) = record e { dsn = [] } ∷ stored_entries es

abbrev pub Keychain : Type 0
Keychain = List (Text × Text)

-- `GetDSN`; a missing secret is empty.
unfoldable pub get_dsn : Text → Keychain → Text
unfolding equal
get_dsn uuid [] = []
get_dsn uuid ((k, dsn) ∷ secrets) =
    let rest = get_dsn uuid secrets in if equal k uuid then dsn else rest

abbrev pub put_dsn : Text → Text → Keychain → Keychain
put_dsn uuid dsn secrets = (uuid, dsn) ∷ secrets

unfoldable pub delete_dsn : Text → Keychain → Keychain
unfolding equal
delete_dsn uuid [] = []
delete_dsn uuid ((k, dsn) ∷ secrets) =
    let rest = delete_dsn uuid secrets in if equal k uuid then rest else (k, dsn) ∷ rest

-- The file of the registry, by what reading and parsing it gives.
pub data RegistryFile : Type 0 where
  missing unreadable unparsable : RegistryFile
  holds : List Entry → RegistryFile

pub record Disk : Type 0 where
  pub file : RegistryFile
  pub keychain : Keychain

-- Which calls fail, with their errors: of the keychain by the uuid; and of a save, with the file that it leaves.
pub record Failures : Type 0 where
  pub put_error : Text → Option Text
  pub get_error : Text → Option Text
  pub delete_error : Text → Option Text
  pub save_leaves : Option (RegistryFile → RegistryFile)

-- Where `Load` and the others stop.
pub data RegistryError : Type 0 where
  migrating resolving storing deleting : (name : Text) → RegistryError
  reading parsing rewriting name_required : RegistryError
  duplicate_name no_match : (name : Text) → RegistryError

unfoldable pub save_leaving :
    Option (RegistryFile → RegistryFile) → List Entry → Disk → Option RegistryError × Disk
save_leaving (some left) entries d = (some rewriting, record d { file = left d.file })
save_leaving none entries d = (none, record d { file = holds (stored_entries entries) })

unfoldable pub save : Failures → List Entry → Disk → Option RegistryError × Disk
unfolding save_leaving
save f entries d = save_leaving f.save_leaves entries d

-- The first loop of `Load`: the entries with their legacy secrets moved, whether one was, and the keychain after it.
unfoldable pub kept_entry :
    Entry → RegistryError ⊎ (List Entry × Bool) → RegistryError ⊎ (List Entry × Bool)
kept_entry e (inl err) = inl err
kept_entry e (inr (rest, migrated)) = inr (e ∷ rest, migrated)

unfoldable pub moved_entry :
    Entry → RegistryError ⊎ (List Entry × Bool) → RegistryError ⊎ (List Entry × Bool)
moved_entry e (inl err) = inl err
moved_entry e (inr (rest, migrated)) =
    inr (record e { dsn = e.legacy_dsn; legacy_dsn = [] } ∷ rest, true)

unfoldable pub migrate :
    Failures → List Entry → Keychain → (RegistryError ⊎ (List Entry × Bool)) × Keychain
unfolding kept_entry moved_entry
migrate f [] secrets = (inr ([], false), secrets)
migrate f (e ∷ es) secrets =
    let same = migrate f es secrets in
    let moved = migrate f es (put_dsn e.uuid e.legacy_dsn secrets) in
    if is_nil e.legacy_dsn then (kept_entry e same.0, same.1) else elim (f.put_error e.uuid) [
      | some err ↦ (inl (migrating e.name), secrets)
      | none ↦ (moved_entry e moved.0, moved.1)
    ]

-- The second loop of `Load`.
unfoldable pub cons_resolved : Entry → RegistryError ⊎ List Entry → RegistryError ⊎ List Entry
cons_resolved e (inl err) = inl err
cons_resolved e (inr es) = inr (e ∷ es)

unfoldable pub resolve : Failures → Keychain → List Entry → RegistryError ⊎ List Entry
unfolding get_dsn cons_resolved
resolve f secrets [] = inr []
resolve f secrets (e ∷ es) =
    let rest = resolve f secrets es in
    if not (is_nil e.dsn) then cons_resolved e rest else elim (f.get_error e.uuid) [
      | some err ↦ inl (resolving e.name)
      | none ↦ cons_resolved (record e { dsn = get_dsn e.uuid secrets }) rest
    ]

unfoldable pub resolve_saved :
    Failures → List Entry → Option RegistryError × Disk → (RegistryError ⊎ List Entry) × Disk
unfolding resolve
resolve_saved f entries (some err, d) = (inl err, d)
resolve_saved f entries (none, d) = (resolve f d.keychain entries, d)

-- What `Load` does with the migrated entries.
unfoldable pub finish_load :
    Failures → RegistryError ⊎ (List Entry × Bool) → Disk → (RegistryError ⊎ List Entry) × Disk
unfolding save resolve_saved
finish_load f (inl err) d = (inl err, d)
finish_load f (inr (entries, migrated)) d =
    resolve_saved f entries (if migrated then save f entries d else (none, d))

-- `Load` by what reading the file gives. A file that is not there is an empty registry.
unfoldable pub load_file : Failures → RegistryFile → Disk → (RegistryError ⊎ List Entry) × Disk
unfolding migrate finish_load
load_file f missing d = (inr [], d)
load_file f unreadable d = (inl reading, d)
load_file f unparsable d = (inl parsing, d)
load_file f (holds entries) d =
    let r = migrate f entries d.keychain in finish_load f r.0 (record d { keychain = r.1 })

unfoldable pub load : Failures → Disk → (RegistryError ⊎ List Entry) × Disk
unfolding load_file
load f d = load_file f d.file d

unfoldable pub find_by_uuid : Text → List Entry → Option Entry
unfolding equal
find_by_uuid u [] = none
find_by_uuid u (e ∷ es) = let rest = find_by_uuid u es in if equal e.uuid u then some e else rest

unfoldable pub find_by_name : Text → List Entry → Option Entry
unfolding equal_fold
find_by_name name [] = none
find_by_name name (e ∷ es) =
    let rest = find_by_name name es in if equal_fold e.name name then some e else rest

-- The entry with a uuid, a fresh one if it has none.
abbrev pub with_uuid : Text → Entry → Entry
with_uuid fresh e = record e { uuid = if is_nil e.uuid then fresh else e.uuid }

unfoldable pub append_entry :
    Failures → Entry → List Entry → Keychain → (RegistryError ⊎ Entry) × (List Entry × Keychain)
append_entry f e es secrets =
    let added = record e { legacy_dsn = [] } in
    if is_nil e.dsn then (inr added, (es ++ (added ∷ []), secrets)) else elim (f.put_error e.uuid) [
      | some err ↦ (inl (storing e.name), (es, secrets))
      | none ↦ (inr added, (es ++ (added ∷ []), put_dsn e.uuid e.dsn secrets))
    ]

-- `Registry.Add`, with the uuid that it draws.
unfoldable pub add_entry :
    Failures
    → Text
    → Entry
    → List Entry
    → Keychain
    → (RegistryError ⊎ Entry) × (List Entry × Keychain)
unfolding find_by_name append_entry
add_entry f fresh e es secrets =
    if is_nil (trim_space e.name)
    then (inl name_required, (es, secrets))
    else elim (find_by_name e.name es) [
      | some dup ↦ (inl (duplicate_name e.name), (es, secrets))
      | none ↦ append_entry f (with_uuid fresh e) es secrets
    ]

unfoldable pub is_named : Text → Entry → Bool
unfolding equal equal_fold
is_named id e = equal e.uuid id || equal_fold e.name id

-- `Registry.Remove` of the first entry that the text names.
unfoldable pub remove_entry :
    Failures → Text → List Entry → Keychain → (RegistryError ⊎ Entry) × (List Entry × Keychain)
unfolding is_named delete_dsn
remove_entry f id [] secrets = (inl (no_match id), ([], secrets))
remove_entry f id (e ∷ es) secrets =
    let rest = remove_entry f id es secrets in
    if is_named id e
    then elim (f.delete_error e.uuid) [
      | some err ↦ (inl (deleting e.name), (e ∷ es, secrets))
      | none ↦ (inr e, (es, delete_dsn e.uuid secrets))
    ]
    else (rest.0, (e ∷ rest.1.0, rest.1.1))
