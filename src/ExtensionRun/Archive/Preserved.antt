-- ===== src/ExtensionRun/Archive/Preserved.antt =====
-- What happens to a file of the user while an archive is written.
use mathlib.Core.Option.{some-injective}
use nuzur_cli.Base.{
  ◌≡◌, refl, ap, ◌∙◌, Bool, true, false, not, ◌&&◌, List, [], ◌∷◌, ◌++◌, Option, none, some, All,
  ◌⊎◌, inl, inr, arith, Bool-cases, if◌then◌else◌, subst,
}
use nuzur_cli.Text.{Text, equal, split_on, has_prefix}
use nuzur_cli.Text.Equal.{equal→eq}
use nuzur_cli.ExtensionRun.Archive.{
  FilePath, Files, join_path, abs_path, sanitize_zip_path, read_file, write_file, remove_file,
  has_prefix,
}
use nuzur_cli.ExtensionRun.Archive.Zip.{
  ZipEntry, Extracted, is_refreshed, exists_file, is_there, extract_entry, extract_entries,
  extract_zip, on_path, zip_has_manifest,
}

pub read_file-remove_file :
    (a b : Text) (fs : Files) → equal a b ≡ false → read_file b (remove_file a fs) ≡ read_file b fs
unfolding read_file remove_file
read_file-remove_file a b [] h = refl
read_file-remove_file a b ((n, c) ∷ fs) h = elim (Bool-cases (equal n a)) [
  | inl is ↦ rw (is, ap (λ t. equal t b) (equal→eq n a is) ∙ h) (read_file-remove_file a b fs h)
  | inr is_not ↦
      rw is_not (ap (λ o. if equal n b then some c else o) (read_file-remove_file a b fs h))
]

read_file-write_file :
    (a b c : Text) (fs : Files)
    → equal a b ≡ false
    → read_file b (write_file a c fs) ≡ read_file b fs
unfolding read_file write_file
read_file-write_file a b c fs h = rw (h, read_file-remove_file a b fs h)

-- The entry is not the generator's, or it goes elsewhere.
abbrev pub Spares : FilePath → Text → ZipEntry → Type 0
Spares base path e =
    (is_refreshed e ≡ false)
    ⊎ (equal (abs_path (join_path base (split_on b'/' e.name))) path ≡ false)

exists_file-some :
    (path c : Text) (fs : Files) → read_file path fs ≡ some c → exists_file path fs ≡ true
exists_file-some path c fs h = ap is_there h

either_branch :
    {A : Type 0} (P : A → Type 0) (d k : Bool) {x y : A}
    → P x
    → (k ≡ false → P y)
    → P (if d then x else if k then x else y)
either_branch P true k px py = px
either_branch P false true px py = px
either_branch P false false px py = py refl

-- What is written goes elsewhere.
elsewhere :
    (dest path c : Text) (refreshed : Bool) (fs : Files)
    → (refreshed ≡ false) ⊎ (equal dest path ≡ false)
    → read_file path fs ≡ some c
    → (true && (not refreshed && exists_file dest fs)) ≡ false
    → equal dest path ≡ false
elsewhere dest path c refreshed fs spared h writes = elim (Bool-cases (equal dest path)) [
  | inr other ↦ other
  | inl here ↦
      let there =
        exists_file-some dest c fs (ap (λ p. read_file p fs) (equal→eq dest path here) ∙ h) in
      elim spared [ inl kept ↦ ground (arith, there, kept, writes) | inr other ↦ other ]
]

-- An entry at its destination, in an archive that spares the files of the user.
extract_entry-read_file :
    (e : ZipEntry) (dest : FilePath) (path c : Text) (fs : Files)
    → (is_refreshed e ≡ false) ⊎ (equal (abs_path dest) path ≡ false)
    → read_file path fs ≡ some c
    → read_file path (extract_entry true e dest fs).0 ≡ some c
unfolding extract_entry
extract_entry-read_file e dest path c fs spared h =
    either_branch (λ (x : Files × Bool). read_file path x.0 ≡ some c) e.is_dir
      (true && (not (is_refreshed e) && exists_file (abs_path dest) fs)) h
      (λ writes.
        read_file-write_file (abs_path dest) path e.content fs
          (elsewhere (abs_path dest) path c (is_refreshed e) fs spared h writes)
        ∙ h)

kept_if : (b : Bool) (p dest : FilePath) → (if b then some p else none) ≡ some dest → p ≡ dest
kept_if true p dest h = some-injective p dest h
kept_if false p dest h = ground (arith, h)

on_path-holds :
    (P : Extracted → Type 0) (o : Option FilePath) {refused : Extracted} {go : FilePath → Extracted}
    → P refused
    → ((dest : FilePath) → o ≡ some dest → P (go dest))
    → P (on_path o refused go)
on_path-holds P none r g = r
on_path-holds P (some dest) r g = g dest refl

sanitize_zip_path-some :
    (base : FilePath) (name : Text) (dest : FilePath)
    → sanitize_zip_path base name ≡ some dest
    → join_path base (split_on b'/' name) ≡ dest
unfolding sanitize_zip_path
sanitize_zip_path-some base name dest h =
    kept_if (has_prefix (abs_path (join_path base (split_on b'/' name))) (abs_path base))
      (join_path base (split_on b'/' name)) dest h

-- Whatever the entries, a file that is there keeps its contents if each entry spares it.
extract_entries-read_file :
    (base : FilePath) (path c : Text) (es written : List ZipEntry) (fs : Files)
    → All (Spares base path) es
    → read_file path fs ≡ some c
    → read_file path (extract_entries base true es written fs).files ≡ some c
unfolding extract_entries
extract_entries-read_file base path c [] written fs spared h = h
extract_entries-read_file base path c (e ∷ es) written fs spared h =
    on_path-holds (λ x. read_file path x.files ≡ some c) (sanitize_zip_path base e.name) h
      (λ dest accepted.
        extract_entries-read_file base path c es
          (if (extract_entry true e dest fs).1 then written ++ e ∷ [] else written)
          (extract_entry true e dest fs).0 spared.1
          (extract_entry-read_file e dest path c fs
            (subst (λ d. (is_refreshed e ≡ false) ⊎ (equal (abs_path d) path ≡ false))
              (sanitize_zip_path-some base e.name dest accepted) spared.0)
            h))

-- If an archive has a manifest, then a file that is there keeps its contents, even where an entry is refused, if each entry that leads to it is neither a manifest, nor a module file, nor marked as generated.
pub extract_zip-read_file :
    (base : FilePath) (path c : Text) (es : List ZipEntry) (fs : Files)
    → zip_has_manifest es ≡ true
    → All (Spares base path) es
    → read_file path fs ≡ some c
    → read_file path (extract_zip base es fs).files ≡ some c
unfolding extract_zip
extract_zip-read_file base path c es fs manifest spared h =
    rw manifest (extract_entries-read_file base path c es [] fs spared h)
