-- ===== src/Deploy/Store.antt =====
-- deploy/state.go: the directory of the deployment records. A file is modelled by what reading and
-- parsing it gives; what is written is what parses back. Each system call that can fail does so when
-- an argument says so.
pub mod Kept
pub mod Listing
pub mod Loaded
use nuzur_cli.Base.{
  Bool, ◌&&◌, List, [], ◌∷◌, ◌++◌, Option, none, some, if◌then◌else◌, ltb, length, leb, drop, ◌-◌,
  inl, ◌⊎◌, inr,
}
use nuzur_cli.Deploy.{Deployment, blank}
use nuzur_cli.Text.{Text, codes, equal}

pub data File : Type 0 where
  holds : Deployment → File
  unparsable : File
  unreadable : File
  directory : File

-- The files of the directory by their names.
abbrev pub Dir : Type 0
Dir = List (Text × File)

unfoldable pub find : Text → Dir → Option File
find name [] = none
find name ((n, f) ∷ d) = if equal n name then some f else find name d

unfoldable pub remove : Text → Dir → Dir
remove name [] = []
remove name ((n, f) ∷ d) = let rest = remove name d in if equal n name then rest else (n, f) ∷ rest

unfoldable pub put : Text → File → Dir → Dir
unfolding remove
put name f d = (name, f) ∷ remove name d

-- `files.DeploymentFilePath id`, less the directory.
abbrev pub file_path : Text → Text
file_path id = id ++ codes ".json"

abbrev pub tmp_path : Text → Text
tmp_path id = file_path id ++ codes ".tmp"

pub data SaveError : Type 0 where
  creating_dir marshaling writing renaming : SaveError

-- What a write to disk did: the directory after each change, the oldest first, and the error.
pub record Saved : Type 0 where
  pub moments : List Dir
  pub error : Option SaveError

-- `saveDeployment`; the option says which of its calls fails.
unfoldable pub save_deployment : Option SaveError → Deployment → Dir → Saved
unfolding put remove
save_deployment (some creating_dir) r d = record { moments = []; error = some creating_dir }
save_deployment (some marshaling) r d = record { moments = []; error = some marshaling }
save_deployment (some writing) r d = record {
  moments = put (tmp_path r.id) unparsable d ∷ [];
  error = some writing;
}
save_deployment (some renaming) r d = record {
  moments =
      put (tmp_path r.id) unparsable d
      ∷ put (tmp_path r.id) (holds r) d
      ∷ remove (tmp_path r.id) d
      ∷ [];
  error = some renaming;
}
save_deployment none r d = record {
  moments =
      put (tmp_path r.id) unparsable d
      ∷ put (tmp_path r.id) (holds r) d
      ∷ put (file_path r.id) (holds r) (remove (tmp_path r.id) d)
      ∷ [];
  error = none;
}

pub data StoreError : Type 0 where
  no_mutation : StoreError
  parsing : StoreError
  reading : StoreError
  not_found : StoreError
  saving : SaveError → StoreError

-- What a mutation did: the record it returns, or its error, and the directory after each change.
pub record Mutated : Type 0 where
  pub moments : List Dir
  pub result : Option Deployment
  pub error : Option StoreError

unfoldable pub write_back :
    Text → (Deployment → Deployment) → Option SaveError → Deployment → Dir → Mutated
unfolding save_deployment
write_back id fn fault r d =
    let made = record (fn r) { id = id } in
    let saved = save_deployment fault made d in
    elim saved.error [
      | none ↦ record { moments = saved.moments; result = some made; error = none }
      | some e ↦ record { moments = saved.moments; result = none; error = some (saving e) }
    ]

abbrev pub mutation_error : StoreError → Mutated
mutation_error e = record { moments = []; result = none; error = some e }

-- The record that a mutation starts from: the one on disk, or a blank one on a first write.
unfoldable pub load_or_create : Option File → Deployment ⊎ StoreError
load_or_create none = inl blank
load_or_create (some (holds r)) = inl r
load_or_create (some unparsable) = inr parsing
load_or_create (some unreadable) = inr reading
load_or_create (some directory) = inr reading

unfoldable pub proceed :
    Text → (Deployment → Deployment) → Option SaveError → Dir → Deployment ⊎ StoreError → Mutated
unfolding write_back
proceed id fn fault d (inl r) = write_back id fn fault r d
proceed id fn fault d (inr e) = mutation_error e

unfoldable pub mutate_deployment :
    Text → Option (Deployment → Deployment) → Option SaveError → Dir → Mutated
unfolding proceed find load_or_create
mutate_deployment id none fault d = mutation_error no_mutation
mutate_deployment id (some fn) fault d =
    proceed id fn fault d (load_or_create (find (file_path id) d))

abbrev pub last_moment : Dir → List Dir → Dir
last_moment d [] = d
last_moment d (m ∷ ms) = last_moment m ms

unfoldable pub parsed : Option File → Deployment ⊎ StoreError
parsed none = inr not_found
parsed (some (holds r)) = inl r
parsed (some unparsable) = inr parsing
parsed (some unreadable) = inr reading
parsed (some directory) = inr reading

unfoldable pub load_deployment : Text → Dir → Deployment ⊎ StoreError
unfolding parsed find
load_deployment id d = parsed (find (file_path id) d)

-- `strings.HasSuffix`
unfoldable pub has_suffix : Text → Text → Bool
unfolding equal
has_suffix s suffix =
    leb (length suffix) (length s) && equal (drop (length s - length suffix) s) suffix

-- The records that the listing reads; the others only cause a warning.
unfoldable pub readable : Dir → List Deployment
unfolding has_suffix
readable [] = []
readable ((n, holds r) ∷ d) =
    let rest = readable d in if has_suffix n (codes ".json") then r ∷ rest else rest
readable ((n, unparsable) ∷ d) = readable d
readable ((n, unreadable) ∷ d) = readable d
readable ((n, directory) ∷ d) = readable d

-- `sort.Slice` with `CreatedAt.After`
unfoldable pub insert_deployment : Deployment → List Deployment → List Deployment
insert_deployment r [] = r ∷ []
insert_deployment r (x ∷ xs) =
    let rest = insert_deployment r xs in
    if ltb r.created_at x.created_at then x ∷ rest else r ∷ x ∷ xs

unfoldable pub sort_deployments : List Deployment → List Deployment
unfolding insert_deployment
sort_deployments [] = []
sort_deployments (r ∷ rs) = insert_deployment r (sort_deployments rs)

unfoldable pub list_deployments : Dir → List Deployment
unfolding sort_deployments readable
list_deployments d = sort_deployments (readable d)

unfoldable pub delete_deployment : Text → Dir → Dir
unfolding remove
delete_deployment id d = remove (file_path id) d
