-- ===== src/ExtensionRun/Archive/Zip.antt =====
-- `extractZip` of extensionrun/run.go and `CleanupOrphanedGeneratedFiles` of
-- files/generated_manifest.go. Each entry of the archive opens, and each file can be written.
use nuzur_cli.Base.{
  Bool, true, false, not, ◌&&◌, ◌||◌, List, [], ◌∷◌, ◌++◌, none, some, if◌then◌else◌, is_nil,
  Option,
}
use nuzur_cli.Text.{Text, codes, equal, split_on}
use nuzur_cli.ExtensionRun.Archive.{
  FilePath, Files, join_path, abs_path, sanitize_zip_path, has_generated_marker, read_file,
  write_file, remove_file,
}

pub record ZipEntry : Type 0 where
  pub name : Text
  pub is_dir : Bool
  pub content : Text

abbrev last_named : Text → List Text → Text
last_named found [] = found
last_named found (s ∷ ss) = last_named (if is_nil s then found else s) ss

-- `filepath.Base` of a path that has a segment.
unfoldable pub base_name : Text → Text
unfolding split_on
base_name name = last_named (codes ".") (split_on b'/' name)

abbrev pub manifest_file_name : Text
manifest_file_name = codes ".nuzur-codegen-manifest.json"

unfoldable pub is_manifest : ZipEntry → Bool
unfolding base_name equal
is_manifest e = equal (base_name e.name) manifest_file_name

unfoldable pub is_generator_managed : ZipEntry → Bool
unfolding base_name equal
is_generator_managed e =
    let base = base_name e.name in equal base (codes "go.mod") || equal base (codes "go.sum")

unfoldable pub zip_has_manifest : List ZipEntry → Bool
unfolding is_manifest
zip_has_manifest [] = false
zip_has_manifest (e ∷ es) = is_manifest e || zip_has_manifest es

-- Whether the entry is the generator's to refresh.
unfoldable pub is_refreshed : ZipEntry → Bool
unfolding is_manifest is_generator_managed has_generated_marker
is_refreshed e = is_manifest e || is_generator_managed e || has_generated_marker e.content

abbrev pub is_there : Option Text → Bool
is_there none = false
is_there (some content) = true

abbrev pub exists_file : Text → Files → Bool
exists_file path fs = is_there (read_file path fs)

-- The files, the entries that were written, whose clean names are returned, and whether an entry was refused.
pub record Extracted : Type 0 where
  pub files : Files
  pub written : List ZipEntry
  pub refused : Bool

-- One entry at its path.
unfoldable pub extract_entry : Bool → ZipEntry → FilePath → Files → Files × Bool
extract_entry preserve e dest fs =
    if e.is_dir
    then (fs, false)
    else if preserve && (not (is_refreshed e) && exists_file (abs_path dest) fs)
    then (fs, false)
    else (write_file (abs_path dest) e.content fs, true)

-- What to do with the path of an entry, if it is accepted.
abbrev pub on_path {ℓ} : {A : Type ℓ} → Option FilePath → A → (FilePath → A) → A
on_path none refused go = refused
on_path (some dest) refused go = go dest

unfoldable pub extract_entries : FilePath → Bool → List ZipEntry → List ZipEntry → Files → Extracted
unfolding extract_entry
extract_entries base preserve [] written fs = record {
  files = fs;
  written = written;
  refused = false;
}
extract_entries base preserve (e ∷ es) written fs =
    on_path (sanitize_zip_path base e.name) (record { files = fs; written = []; refused = true })
      (λ dest.
        let result = extract_entry preserve e dest fs in
        extract_entries base preserve es (if result.1 then written ++ e ∷ [] else written) result.0)

unfoldable pub extract_zip : FilePath → List ZipEntry → Files → Extracted
unfolding extract_entries
extract_zip base es fs = extract_entries base (zip_has_manifest es) es [] fs

abbrev pub listed : Text → List Text → Bool
unfolding equal
listed f [] = false
listed f (g ∷ gs) = equal g f || listed f gs

pub record Cleaned : Type 0 where
  pub files : Files
  pub removed : List Text
  pub failed : Bool

abbrev pub is_marked : Option Text → Bool
is_marked none = false
is_marked (some content) = has_generated_marker content

-- Whether the file of an earlier manifest is to be removed.
unfoldable pub is_orphan : List Text → Files → Text → Text → Bool
is_orphan current fs rel path = not (listed rel current) && is_marked (read_file path fs)

unfoldable pub cleanup_orphaned : (Text → Bool) → FilePath → List Text → List Text → Files → Cleaned
unfolding is_orphan
cleanup_orphaned removable root [] current fs = record { files = fs; removed = []; failed = false }
cleanup_orphaned removable root (rel ∷ previous) current fs =
    let path = abs_path (join_path root (split_on b'/' rel)) in
    let kept = cleanup_orphaned removable root previous current fs in
    let rest = cleanup_orphaned removable root previous current (remove_file path fs) in
    if not (is_orphan current fs rel path)
    then kept
    else if removable path
    then record rest { removed = rel ∷ rest.removed }
    else record { files = fs; removed = []; failed = true }
