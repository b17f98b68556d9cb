-- ===== src/ExtensionRun/Config/Build.antt =====
-- `fieldSchema` of extensionrun/config_schema.go and `BuildConfigFromJSON` of config_apply.go.
use nuzur_cli.ExtensionRun.Config.Coerce.{options_for_entity_type, coerce_field}
use nuzur_cli.Base.{
  Bool, true, false, ◌||◌, List, [], ◌∷◌, ◌++◌, Option, none, some, ◌⊎◌, inl, inr, if◌then◌else◌,
  is_nil,
}
use nuzur_cli.Text.{Text, equal}
use nuzur_cli.ExtensionRun.Config.{
  InputType, uuid_type, enum_type, array_type, ConfigOption, EnumConfig, ArrayConfig, InputField,
  Raw, null, Value, Problem, unknown_field, missing, Sources, type_name, uuid_field_entity_type,
  ◌>>=◌, enum_options,
}

pub record FieldSchema : Type 0 where
  pub identifier : Text
  pub display_name : Text
  pub description : Text
  pub type : Text
  pub required : Bool
  pub multiple : Bool
  pub options : List ConfigOption

abbrev pub plain_schema : InputField → FieldSchema
plain_schema f = record {
  identifier = f.identifier;
  display_name = f.display_name;
  description = f.description;
  type = type_name f.type;
  required = f.required;
  multiple = false;
  options = [];
}

pub record FieldError : Type 0 where
  pub field : Text
  pub problem : Problem

unfoldable pub enum_schema : Option EnumConfig → FieldSchema → FieldSchema
unfolding enum_options
enum_schema none fs = fs
enum_schema (some cfg) fs = record fs {
  multiple = cfg.allow_multiple;
  options = enum_options (some cfg);
}

-- `provided[field.Identifier]`, or the value that was used last.
unfoldable pub value_at : {A : Type 0} → Text → List (Text × A) → Option A
unfolding equal
value_at k [] = none
value_at k ((name, v) ∷ entries) =
    let rest = value_at k entries in if equal name k then some v else rest

unfoldable pub raw_for :
    {F : Type 0} → List (Text × Raw F) → List (Text × Raw F) → Text → Option (Raw F)
unfolding value_at
raw_for provided last identifier = elim (value_at identifier provided) [
  | some raw ↦ some raw
  | none ↦ value_at identifier last
]

abbrev pub is_declared : Text → List InputField → Bool
is_declared k [] = false
is_declared k (f ∷ fs) = equal f.identifier k || is_declared k fs

unfoldable pub unknown_keys : {F : Type 0} → List InputField → List (Text × Raw F) → List FieldError
unfolding equal
unknown_keys fs [] = []
unknown_keys fs ((k, raw) ∷ provided) =
    let rest = unknown_keys fs provided in
    if is_declared k fs then rest else record { field = k; problem = unknown_field } ∷ rest

abbrev pub if_required : Bool → Option (Problem ⊎ Value)
if_required true = some (inl missing)
if_required false = none

module _ {F : Type 0} (w : Sources F) where
  -- The switch of `fieldSchema` on the type of an array's elements.
  unfoldable pub schema_element_options :
      Text → InputType → ArrayConfig → Problem ⊎ List ConfigOption
  unfolding options_for_entity_type enum_options
  schema_element_options identifier uuid_type a = elim a.uuid_entity [
    | none ↦ inr []
    | some e ↦ options_for_entity_type w e identifier []
  ]
  schema_element_options identifier enum_type a = elim a.enum [
    | none ↦ inr []
    | some cfg ↦ inr (enum_options (some cfg))
  ]
  schema_element_options identifier _ a = inr []

  unfoldable pub array_schema : Text → Option ArrayConfig → FieldSchema → Problem ⊎ FieldSchema
  unfolding schema_element_options type_name
  array_schema identifier none fs = inr (record fs { multiple = true })
  array_schema identifier (some a) fs = schema_element_options identifier a.array_type a >>= λ opts.
      inr (record fs { multiple = true; type = type_name a.array_type; options = opts })

  unfoldable pub typed_schema : InputField → InputType → Problem ⊎ FieldSchema
  unfolding options_for_entity_type enum_schema array_schema
  typed_schema f uuid_type =
      options_for_entity_type w (uuid_field_entity_type f) f.identifier [] >>= λ opts.
      inr (record (plain_schema f) { options = opts })
  typed_schema f enum_type = inr (enum_schema f.enum (plain_schema f))
  typed_schema f array_type = array_schema f.identifier f.array (plain_schema f)
  typed_schema f _ = inr (plain_schema f)

  unfoldable pub field_schema : InputField → Problem ⊎ FieldSchema
  unfolding typed_schema
  field_schema f = typed_schema f f.type

  -- What a field gets: none without a value that is required, a problem or a value.
  unfoldable pub field_entry : InputField → Option (Raw F) → Option (Problem ⊎ Value)
  unfolding coerce_field
  field_entry f none = if_required f.required
  field_entry f (some null) = if_required f.required
  field_entry f (some raw) = some (coerce_field w f raw)

  -- A field's error or value before those of the fields after it; of two values for a name the later one counts.
  unfoldable pub with_entry :
      Text
      → Option (Problem ⊎ Value)
      → List FieldError × List (Text × Value)
      → List FieldError × List (Text × Value)
  with_entry identifier none (errs, values) = (errs, values)
  with_entry identifier (some (inl p)) (errs, values) =
      (record { field = identifier; problem = p } ∷ errs, values)
  with_entry identifier (some (inr v)) (errs, values) = (errs, values ++ ((identifier, v) ∷ []))

  -- The loop over the fields.
  unfoldable pub apply_fields :
      List (Text × Raw F)
      → List (Text × Raw F)
      → List InputField
      → List FieldError × List (Text × Value)
  unfolding raw_for field_entry with_entry
  apply_fields provided last [] = ([], [])
  apply_fields provided last (f ∷ fs) =
      with_entry f.identifier (field_entry f (raw_for provided last f.identifier))
        (apply_fields provided last fs)

  abbrev pub or_errors :
      List FieldError → List (Text × Value) → List FieldError ⊎ List (Text × Value)
  or_errors [] values = inr values
  or_errors (e ∷ errs) values = inl (e ∷ errs)

  -- `BuildConfigFromJSON`; without a configuration, or without fields, nothing is looked at.
  unfoldable pub build_config_from_json :
      Option (List InputField)
      → List (Text × Raw F)
      → List (Text × Raw F)
      → List FieldError ⊎ List (Text × Value)
  unfolding unknown_keys apply_fields
  build_config_from_json none provided last = inr []
  build_config_from_json (some fs) provided last =
      let applied = apply_fields provided last fs in
      if is_nil fs then inr [] else or_errors (unknown_keys fs provided ++ applied.0) applied.1
