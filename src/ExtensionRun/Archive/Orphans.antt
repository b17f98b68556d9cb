-- ===== src/ExtensionRun/Archive/Orphans.antt =====
-- What the clean-up of generated files removes.
use nuzur_cli.Base.{
  ◌≡◌, refl, sym, ap, ◌∙◌, Bool, true, false, not, List, [], ◌∷◌, Option, Any, ◌⊎◌, inl, inr, arith,
  Bool-cases, &&-true,
}
use nuzur_cli.Text.Equal.{equal→eq}
use nuzur_cli.Text.{Text, equal, split_on}
use nuzur_cli.ExtensionRun.Archive.{FilePath, Files, join_path, abs_path, read_file, remove_file}
use nuzur_cli.ExtensionRun.Archive.Preserved.{read_file-remove_file}
use nuzur_cli.ExtensionRun.Archive.Zip.{listed, is_orphan, is_marked, cleanup_orphaned}

-- The file was generated, marked, and is generated no more.
abbrev pub IsOrphan : FilePath → List Text → List Text → Files → Text → Type 0
IsOrphan root previous current fs path =
    (is_marked (read_file path fs) ≡ true)
    × Any
        (λ rel.
          (listed rel current ≡ false) × (abs_path (join_path root (split_on b'/' rel)) ≡ path))
        previous

-- A file is as it was, or it is gone and was an orphan.
abbrev pub KeptOrOrphan : FilePath → List Text → List Text → Files → Text → Option Text → Type 0
KeptOrOrphan root previous current fs path o =
    (o ≡ read_file path fs) ⊎ IsOrphan root previous current fs path

KeptOrOrphan-later :
    (root : FilePath) (rel : Text) (previous current : List Text) (fs : Files) (path : Text)
    (o : Option Text)
    → KeptOrOrphan root previous current fs path o
    → KeptOrOrphan root (rel ∷ previous) current fs path o
KeptOrOrphan-later root rel previous current fs path o (inl kept) = inl kept
KeptOrOrphan-later root rel previous current fs path o (inr gone) = inr (gone.0, inr gone.1)

module _ (root : FilePath) (previous : List Text) where
  KeptOrOrphan-same :
      (current : List Text) (fs gs : Files) (path : Text) (o : Option Text)
      → read_file path gs ≡ read_file path fs
      → KeptOrOrphan root previous current gs path o
      → KeptOrOrphan root previous current fs path o
  KeptOrOrphan-same current fs gs path o same (inl kept) = inl (kept ∙ same)
  KeptOrOrphan-same current fs gs path o same (inr gone) =
      inr (ap is_marked (sym same) ∙ gone.0, gone.1)

  -- After one orphan was removed, what becomes of the others.
  removed_one :
      (rel here : Text) (current : List Text) (fs : Files) (path : Text) {o : Option Text}
      → is_orphan current fs rel here ≡ true
      → abs_path (join_path root (split_on b'/' rel)) ≡ here
      → KeptOrOrphan root previous current (remove_file here fs) path o
      → KeptOrOrphan root (rel ∷ previous) current fs path o
  unfolding is_orphan
  removed_one rel here current fs path {o} orphan at h = elim (Bool-cases (equal here path)) [
    | inr other ↦ KeptOrOrphan-later root rel previous current fs path o (
        KeptOrOrphan-same current fs (remove_file here fs) path o
          (read_file-remove_file here path fs other) h)
    | inl is ↦
        let same = equal→eq here path is in
        let both = &&-true (not (listed rel current)) (is_marked (read_file here fs)) orphan in
        inr (
          ap (λ p. is_marked (read_file p fs)) (sym same) ∙ both.1,
          inl (ground (arith, both.0), at ∙ same),
        )
  ]

-- Whatever the manifests, the clean-up leaves each file as it was, or the file was marked as generated, the earlier manifest lists it and the current one does not; that holds too where a removal fails.
pub cleanup_orphaned-KeptOrOrphan :
    (removable : Text → Bool) (root : FilePath) (previous current : List Text) (fs : Files)
    (path : Text)
    → KeptOrOrphan root previous current fs path
        (read_file path (cleanup_orphaned removable root previous current fs).files)
unfolding cleanup_orphaned
cleanup_orphaned-KeptOrOrphan removable root [] current fs path = inl refl
cleanup_orphaned-KeptOrOrphan removable root (rel ∷ previous) current fs path =
    let here = abs_path (join_path root (split_on b'/' rel)) in
    let kept =
      KeptOrOrphan-later root rel previous current fs path
        (read_file path (cleanup_orphaned removable root previous current fs).files)
        (cleanup_orphaned-KeptOrOrphan removable root previous current fs path) in
    elim (Bool-cases (is_orphan current fs rel here)) [
      | inr not_orphan ↦ rw not_orphan kept
      | inl orphan ↦ elim (Bool-cases (removable here)) [
        | inr fails ↦ rw (orphan, fails) (inl refl)
        | inl works ↦
            rw (orphan, works)
              (removed_one root previous rel here current fs path orphan refl (
                cleanup_orphaned-KeptOrOrphan removable root previous current (remove_file here fs)
                  path))
      ]
    ]
