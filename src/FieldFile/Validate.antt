-- ===== src/FieldFile/Validate.antt =====
-- fieldfile/validate.go and fieldfile/limits.go: whether a file may go into a field. Of the generated
-- messages only the parts stand here that the code reads; what `http.DetectContentType` says of the
-- first bytes is an argument. A refusal is named; its text is left out.
pub mod Accepts
use nuzur_cli.Base.{
  ℕ, zero, suc, ◌+◌, ◌*◌, Bool, true, false, not, ◌&&◌, ◌||◌, List, [], ◌∷◌, Option, none, some,
  ltb, leb, if◌then◌else◌, is_nil, drop,
}
use nuzur_cli.Base.Int.{ℤ, pos, negsuc}
use nuzur_cli.Text.{Text, codes, equal, equal_fold, has_prefix, trim_prefix, trim_space, to_lower}
use nuzur_cli.FieldFile.Name.{last_dot}

pub data FieldType : Type 0 where
  type_file type_image type_video type_audio type_other : FieldType

pub data StorageType : Type 0 where
  object_store binary unset : StorageType

pub record FileConfig : Type 0 where
  pub storage_type : StorageType
  pub allowed_extensions : List Text
  pub max_size : ℤ

-- The errors of `Validate`.
pub data Refusal : Type 0 where
  no_configuration no_storage wrong_kind not_accepted too_large : Refusal

unfoldable pub is_file_field : FieldType → Bool
is_file_field type_other = false
is_file_field _ = true

unfoldable pub uses_object_store : StorageType → Bool
uses_object_store object_store = true
uses_object_store _ = false

unfoldable pub validate_storage_type : StorageType → Option Refusal
validate_storage_type object_store = none
validate_storage_type binary = none
validate_storage_type unset = some no_storage

unfoldable pub validate_field_target : Option FileConfig → Option Refusal
unfolding validate_storage_type
validate_field_target none = some no_configuration
validate_field_target (some cfg) = validate_storage_type cfg.storage_type

unfoldable pub required_content_prefix : FieldType → Text
required_content_prefix type_image = codes "image/"
required_content_prefix type_video = codes "video/"
required_content_prefix type_audio = codes "audio/"
required_content_prefix _ = []

unfoldable pub validate_kind : (Text → Text) → FieldType → Text → Option Refusal
unfolding required_content_prefix equal has_prefix
validate_kind detect_content_type t head =
    let prefix = required_content_prefix t in
    let detected = detect_content_type head in
    if is_nil prefix || is_nil head
    then none
    else if equal detected (codes "application/octet-stream") || has_prefix detected prefix
    then none
    else some wrong_kind

abbrev pub behind_dot : Text → Option ℕ → Text
behind_dot name none = name
behind_dot name (some dot) = drop (dot + 1) name

-- What the allow-list is matched with.
unfoldable pub extension_of : Text → Text
unfolding to_lower last_dot
extension_of original_name = behind_dot (to_lower original_name) (last_dot (to_lower original_name))

abbrev pub accepts : Text → Text → Bool
accepts ext a = equal_fold (trim_prefix (trim_space a) (codes ".")) ext

unfoldable pub some_accepts : Text → List Text → Bool
some_accepts ext [] = false
some_accepts ext (a ∷ allowed) = accepts ext a || some_accepts ext allowed

unfoldable pub validate_extension : List Text → Text → Option Refusal
unfolding some_accepts extension_of
validate_extension allowed original_name =
    if is_nil allowed || some_accepts (extension_of original_name) allowed
    then none
    else some not_accepted

-- A size is not negative. Dividing by 1024 is exact in floating point up to 2^53 bytes, so that the
-- comparison is the one of the numbers multiplied out.
unfoldable pub validate_size : ℤ → ℕ → Option Refusal
validate_size (negsuc n) size_bytes = none
validate_size (pos zero) size_bytes = none
validate_size (pos (suc n)) size_bytes =
    if ltb (suc n * 1024) size_bytes then some too_large else none

-- `Validate`: the first check that fails.
unfoldable pub validate :
    (Text → Text) → FieldType → Option FileConfig → Text → ℕ → Text → Option Refusal
unfolding validate_field_target validate_kind validate_extension validate_size
validate detect_content_type t none original_name size_bytes head = validate_field_target none
validate detect_content_type t (some cfg) original_name size_bytes head =
    elim (validate_field_target (some cfg)) [
      | some refusal ↦ some refusal
      | none ↦ elim (validate_kind detect_content_type t head) [
        | some refusal ↦ some refusal
        | none ↦ elim (validate_extension cfg.allowed_extensions original_name) [
          | some refusal ↦ some refusal
          | none ↦ validate_size cfg.max_size size_bytes
        ]
      ]
    ]

-- `CheckSizeGuard`: whether it lets the file through.
unfoldable pub check_size_guard : ℕ → ℤ → Bool
check_size_guard size_bytes (negsuc n) = true
check_size_guard size_bytes (pos zero) = true
check_size_guard size_bytes (pos (suc n)) = leb size_bytes (suc n)
