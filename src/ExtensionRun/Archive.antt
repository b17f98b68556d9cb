-- ===== src/ExtensionRun/Archive.antt =====
-- extensionrun/run.go and files/generated_manifest.go: how the archive of a generation is written into
-- a directory, and how the files that are no longer generated are removed. A path is absolute and a
-- list of segments, a file's contents are its bytes, and directories are those of the files. That a
-- file cannot be removed is an argument of the model.
pub mod Zip
pub mod Slip
pub mod Preserved
pub mod Orphans
mod Tests
use nuzur_cli.Base.{
  ℕ, Bool, true, false, not, ◌&&◌, ◌||◌, List, [], ◌∷◌, ◌++◌, Option, none, some, if◌then◌else◌,
  is_nil, take,
}
use nuzur_cli.Text.{Text, codes, equal, has_prefix, index, split_on}

abbrev pub FilePath : Type 0
FilePath = List Text

-- The last segment of a path, and the segments before it.
unfoldable pub pop_segment : FilePath → FilePath
pop_segment [] = []
pop_segment (s ∷ []) = []
pop_segment (s ∷ t ∷ p) = s ∷ pop_segment (t ∷ p)

-- `filepath.Join` of an absolute path and segments: the empty one and `.` stay, `..` goes up.
unfoldable pub join_path : FilePath → List Text → FilePath
unfolding pop_segment equal
join_path base [] = base
join_path base (s ∷ ss) =
    if is_nil s || equal s (codes ".")
    then join_path base ss
    else if equal s (codes "..")
    then join_path (pop_segment base) ss
    else join_path (base ++ s ∷ []) ss

unfoldable pub show_path : FilePath → Text
show_path [] = []
show_path (s ∷ p) = b'/' ∷ (s ++ show_path p)

-- `filepath.Abs`, which writes the root as a slash.
unfoldable pub abs_path : FilePath → Text
unfolding show_path
abs_path [] = codes "/"
abs_path (s ∷ p) = show_path (s ∷ p)

unfoldable pub sanitize_zip_path : FilePath → Text → Option FilePath
unfolding join_path abs_path split_on has_prefix
sanitize_zip_path base name =
    let dest = join_path base (split_on b'/' name) in
    if has_prefix (abs_path dest) (abs_path base) then some dest else none

-- `strings.Contains`
unfoldable pub contains_text : Text → Text → Bool
unfolding index
contains_text s sub = elim (index s sub) [ none ↦ false | some _ ↦ true ]

-- `IsGeneratedFile`, and `zipEntryHasGeneratedMarker` of an entry that opens.
unfoldable pub has_generated_marker : Text → Bool
unfolding contains_text
has_generated_marker content =
    let head = take 512 content in
    contains_text head (codes "Code generated") && contains_text head (codes "DO NOT EDIT")

abbrev pub Files : Type 0
Files = List (Text × Text)

-- The file of a path.
unfoldable pub read_file : Text → Files → Option Text
unfolding equal
read_file path [] = none
read_file path ((p, c) ∷ fs) = if equal p path then some c else read_file path fs

unfoldable pub remove_file : Text → Files → Files
unfolding equal
remove_file path [] = []
remove_file path ((p, c) ∷ fs) =
    let rest = remove_file path fs in if equal p path then rest else (p, c) ∷ rest

unfoldable pub write_file : Text → Text → Files → Files
unfolding remove_file
write_file path content fs = (path, content) ∷ remove_file path fs
