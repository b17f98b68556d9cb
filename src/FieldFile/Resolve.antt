-- ===== src/FieldFile/Resolve.antt =====
-- fieldfile/fieldfile.go: finding an entity and its field. Of the generated messages only the parts
-- stand here that the code reads; the texts of the errors are left out.
pub mod First
use nuzur_cli.Base.{
  Bool, ◌||◌, not, List, [], ◌∷◌, Option, none, some, if◌then◌else◌, is_nil, map, select,
}
use nuzur_cli.Text.{Text, equal, equal_fold}
use nuzur_cli.FieldFile.Validate.{FieldType, is_file_field}

pub record Field : Type 0 where
  pub uuid : Text
  pub identifier : Text
  pub field_type : FieldType

pub record Entity : Type 0 where
  pub uuid : Text
  pub identifier : Text
  pub fields : List Field

-- How `ResolveEntityField` ends.
pub data Resolved : Type 0 where
  no_version no_entity_given no_field_given entity_not_found : Resolved
  field_not_found : Entity → Resolved
  resolved : Entity → Field → Resolved

abbrev pub matches_entity : Text → Entity → Bool
matches_entity ref e = equal e.uuid ref || equal_fold e.identifier ref

abbrev pub matches_field : Text → Field → Bool
matches_field ref f = equal f.uuid ref || equal_fold f.identifier ref

module _ {A : Type 0} where
  -- The loop that stops at the first match.
  unfoldable pub first_match : (A → Bool) → List A → Option A
  first_match p [] = none
  first_match p (x ∷ xs) = if p x then some x else first_match p xs

unfoldable pub resolve_entity_field : Option (List Entity) → Text → Text → Resolved
unfolding first_match
resolve_entity_field none entity_ref field_ref = no_version
resolve_entity_field (some entities) entity_ref field_ref =
    if is_nil entity_ref
    then no_entity_given
    else if is_nil field_ref
    then no_field_given
    else elim (first_match (matches_entity entity_ref) entities) [
      | none ↦ entity_not_found
      | some e ↦ elim (first_match (matches_field field_ref) e.fields) [
        | none ↦ field_not_found e
        | some f ↦ resolved e f
      ]
    ]

abbrev is_file : Field → Bool
is_file f = is_file_field f.field_type

unfoldable pub file_fields_of : Entity → List Text
unfolding is_file_field
file_fields_of e = map (λ f. f.identifier) (select is_file e.fields)

unfoldable pub entities_with_file_fields : List Entity → List Text
unfolding file_fields_of
entities_with_file_fields entities =
    map (λ e. e.identifier) (select (λ e. not (is_nil (file_fields_of e))) entities)
