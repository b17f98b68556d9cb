-- ===== src/ExtensionRun/Archive/Tests.antt =====
-- Concrete archives and directories, and instances of the theorems about them.
use nuzur_cli.Base.{◌≡◌, refl, inl, inr, true, false, List, [], ◌∷◌, ◌++◌, none, some}
use nuzur_cli.Text.{Text, codes, equal, split_on, has_prefix, index}
use nuzur_cli.ExtensionRun.Archive.{
  FilePath, Files, sanitize_zip_path, join_path, abs_path, show_path, read_file, write_file,
  remove_file, has_generated_marker, contains_text,
}
use nuzur_cli.ExtensionRun.Archive.Orphans.{KeptOrOrphan, cleanup_orphaned-KeptOrOrphan}
use nuzur_cli.ExtensionRun.Archive.Preserved.{extract_zip-read_file}
use nuzur_cli.ExtensionRun.Archive.Slip.{sanitize_zip_path-beside}
use nuzur_cli.ExtensionRun.Archive.Zip.{
  ZipEntry, zip_has_manifest, extract_zip, extract_entries, extract_entry, cleanup_orphaned,
  is_orphan, is_refreshed, is_manifest, is_generator_managed, base_name,
}

abbrev out : FilePath
out = codes "home" ∷ codes "out" ∷ []

abbrev entry : Text → Text → ZipEntry
entry n c = record { name = n; is_dir = false; content = c }

abbrev archive : List ZipEntry
archive =
    entry (codes ".nuzur-codegen-manifest.json") []
    ∷ entry (codes "app/grpc.go") (codes "package app")
    ∷ entry (codes "core/a.go") (codes "// Code generated by x. DO NOT EDIT.")
    ∷ []

abbrev workspace : Files
workspace =
    (codes "/home/out/app/grpc.go", codes "mine")
    ∷ (codes "/home/out/core/b.go", codes "// Code generated by x. DO NOT EDIT.")
    ∷ []

writes_generated :
    read_file (codes "/home/out/core/a.go") (extract_zip out archive workspace).files
    ≡ some (codes "// Code generated by x. DO NOT EDIT.")
unfolding read_file extract_zip zip_has_manifest is_manifest base_name equal split_on
    extract_entries extract_entry sanitize_zip_path join_path abs_path show_path has_prefix
    is_refreshed write_file remove_file has_generated_marker contains_text index
    is_generator_managed
writes_generated = refl

removes_orphan :
    read_file
      (codes "/home/out/core/b.go")
      (cleanup_orphaned (λ _. true) out (codes "core/b.go" ∷ []) [] workspace).files
    ≡ none
unfolding read_file equal split_on cleanup_orphaned is_orphan join_path abs_path show_path
    has_prefix remove_file has_generated_marker contains_text index
removes_orphan = refl

extract_zip-read_file_example :
    read_file (codes "/home/out/app/grpc.go") (extract_zip out archive workspace).files
    ≡ some (codes "mine")
unfolding read_file zip_has_manifest is_manifest base_name equal split_on join_path abs_path
    show_path is_refreshed is_generator_managed has_generated_marker contains_text index has_prefix
extract_zip-read_file_example =
    extract_zip-read_file out (codes "/home/out/app/grpc.go") (codes "mine") archive workspace refl
      (inr refl, (inl refl, (inr refl, tt))) refl

cleanup_orphaned-KeptOrOrphan_example :
    KeptOrOrphan out (codes "core/b.go" ∷ []) [] workspace (codes "/home/out/core/b.go") (
      read_file
        (codes "/home/out/core/b.go")
        (cleanup_orphaned (λ _. true) out (codes "core/b.go" ∷ []) [] workspace).files)
cleanup_orphaned-KeptOrOrphan_example =
    cleanup_orphaned-KeptOrOrphan (λ _. true) out (codes "core/b.go" ∷ []) [] workspace
      (codes "/home/out/core/b.go")

sanitize_zip_path-beside_example :
    sanitize_zip_path
      (codes "home" ∷ codes "out" ∷ [])
      (codes "../" ++ (codes "out" ++ codes "-evil"))
    ≡ some (codes "home" ∷ codes "out-evil" ∷ [])
unfolding equal split_on
sanitize_zip_path-beside_example =
    sanitize_zip_path-beside (codes "home" ∷ []) (codes "out") (codes "-evil") refl refl refl
