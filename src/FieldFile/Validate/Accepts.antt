-- ===== src/FieldFile/Validate/Accepts.antt =====
-- When a file passes (fieldfile/validate.go).
use nuzur_cli.Base.{
  ℕ, zero, suc, ◌*◌, ◌≤◌, ◌≡◌, ◌↔◌, ◌⊎◌, true, none, List, [], ◌∷◌, Any, arith, some,
}
use nuzur_cli.Base.Int.{ℤ, pos, negsuc}
use nuzur_cli.Text.{Text, codes, has_prefix, equal}
use nuzur_cli.FieldFile.Validate.{
  FieldType, FileConfig, validate_storage_type, validate_kind, validate_extension, validate_size,
  extension_of, accepts, some_accepts, required_content_prefix, validate, validate_field_target,
}

-- Within the limit, in kilobytes, where there is one.
abbrev pub Fits : ℤ → ℕ → Type 0
Fits (pos (suc n)) size = size ≤ suc n * 1024
Fits _ size = Unit

-- The file is not known to be of another kind than the field's.
abbrev pub IsOfKind : (Text → Text) → FieldType → Text → Type 0
IsOfKind detect t head =
    (required_content_prefix t ≡ [])
    ⊎ (head ≡ [])
    ⊎ (equal (detect head) (codes "application/octet-stream") ≡ true)
    ⊎ (has_prefix (detect head) (required_content_prefix t) ≡ true)

-- Every rule of the field, in no order.
pub record IsUploadable (detect : Text → Text) (t : FieldType) (cfg : FileConfig) (name : Text)
    (size : ℕ) (head : Text) : Type 0 where
  pub stored : (validate_storage_type cfg.storage_type ≡ none)
  pub kind : IsOfKind detect t head
  pub extension :
      (cfg.allowed_extensions ≡ [])
      ⊎ Any (λ a. accepts (extension_of name) a ≡ true) cfg.allowed_extensions
  pub fits : Fits cfg.max_size size

some_accepts_iff :
    (ext : Text) (allowed : List Text)
    → (some_accepts ext allowed ≡ true) ↔ Any (λ a. accepts ext a ≡ true) allowed
unfolding some_accepts
some_accepts_iff ext [] = (λ e. cc, λ a. absurd a)
some_accepts_iff ext (a ∷ allowed) = ground (arith, some_accepts_iff ext allowed)

validate_extension_iff :
    (allowed : List Text) (name : Text)
    → (validate_extension allowed name ≡ none)
      ↔ ((allowed ≡ []) ⊎ Any (λ a. accepts (extension_of name) a ≡ true) allowed)
unfolding validate_extension
validate_extension_iff allowed name = ground (arith, some_accepts_iff (extension_of name) allowed)

validate_size_iff : (m : ℤ) (size : ℕ) → (validate_size m size ≡ none) ↔ Fits m size
unfolding validate_size
validate_size_iff (negsuc n) size = ground arith
validate_size_iff (pos zero) size = ground arith
validate_size_iff (pos (suc n)) size = ground arith

validate_kind_iff :
    (detect : Text → Text) (t : FieldType) (head : Text)
    → (validate_kind detect t head ≡ none) ↔ IsOfKind detect t head
unfolding validate_kind
validate_kind_iff detect t head = ground arith

validate-some_iff :
    (detect : Text → Text) (t : FieldType) (cfg : FileConfig) (name : Text) (size : ℕ) (head : Text)
    → (validate detect t (some cfg) name size head ≡ none) ↔ (
        (validate_storage_type cfg.storage_type ≡ none)
        × (validate_kind detect t head ≡ none)
        × (validate_extension cfg.allowed_extensions name ≡ none)
        × (validate_size cfg.max_size size ≡ none))
unfolding validate validate_field_target
validate-some_iff detect t cfg name size head = ground arith

-- A file passes exactly if the field has a storage type, its content is not of another kind, its
-- extension is in the allow-list when there is one, and its size is within the limit when there is
-- one.
pub validate_iff :
    (detect : Text → Text) (t : FieldType) (cfg : FileConfig) (name : Text) (size : ℕ) (head : Text)
    → (validate detect t (some cfg) name size head ≡ none)
      ↔ IsUploadable detect t cfg name size head
validate_iff detect t cfg name size head =
    let (to, from) = validate-some_iff detect t cfg name size head in
    let (kind_to, kind_from) = validate_kind_iff detect t head in
    let (ext_to, ext_from) = validate_extension_iff cfg.allowed_extensions name in
    let (size_to, size_from) = validate_size_iff cfg.max_size size in
    (
      λ e.
          let (a, b, c, d) = to e in
          record { stored = a; kind = kind_to b; extension = ext_to c; fits = size_to d },
      λ u. from (u.stored, kind_from u.kind, ext_from u.extension, size_from u.fits),
    )
