-- ===== src/FieldFile/Tests.antt =====
-- Concrete files: instances of the theorems about fieldfile, and runs of the code.
use nuzur_cli.Base.{◌≡◌, [], ◌∷◌, none, some, refl}
use nuzur_cli.Base.Int.{pos}
use nuzur_cli.Text.{Text, codes, equal_fold, trim_prefix, trim_func, is_space}
use nuzur_cli.FieldFile.Name.{sanitize_file_name, with_extension, clean_name}
use nuzur_cli.FieldFile.Name.Again.{IsSanitized, sanitize_file_name-IsSanitized}
use nuzur_cli.FieldFile.Key.{normalize_key}
use nuzur_cli.FieldFile.Validate.{type_image, type_file, FileConfig, object_store, validate}
use nuzur_cli.FieldFile.Resolve.{Entity, Field}

-- The cases of name_test.go.
sanitize_archive : sanitize_file_name (codes "My Archive.TAR.gz") ≡ codes "my_archive_tar.gz"
unfolding sanitize_file_name with_extension clean_name
sanitize_archive = refl

sanitize_punctuation : sanitize_file_name (codes "!!!.pdf") ≡ codes ".pdf"
unfolding sanitize_file_name with_extension clean_name
sanitize_punctuation = refl

normalize_slashes : normalize_key (codes "/a//b/") ≡ codes "a/b"
unfolding normalize_key
normalize_slashes = refl

sanitize_file_name-IsSanitized_example :
    IsSanitized (sanitize_file_name (codes "My Archive.TAR.gz"))
sanitize_file_name-IsSanitized_example = sanitize_file_name-IsSanitized (codes "My Archive.TAR.gz")

abbrev pictures : FileConfig
pictures = record {
  storage_type = object_store;
  allowed_extensions = codes ".PNG" ∷ [];
  max_size = pos 2;
}

-- A sniffer that knows one kind of file.
abbrev sniff : Text → Text
sniff [] = codes "application/octet-stream"
sniff (c ∷ s) = codes "image/png"

accepts_png : validate sniff type_image (some pictures) (codes "a.v2.Png") 2048 (codes "x") ≡ none
unfolding validate equal_fold trim_prefix trim_func is_space
accepts_png = refl

abbrev logo : Field
logo = record { uuid = codes "f1"; identifier = codes "logo"; field_type = type_file }

abbrev team : Entity
team = record { uuid = codes "e1"; identifier = codes "team"; fields = logo ∷ [] }
