-- ===== src/ExtensionRun/JwtRequirements.antt =====
-- extensionrun/jwt_requirements.go: what the server with JWT authentication needs of the entities of a project. The
-- entities that are fetched are an argument; a requirement and a warning stand for their texts.
pub mod Named
pub mod Ready
mod Tests
use nuzur_cli.Base.{
  Bool, true, false, not, ◌&&◌, ◌||◌, List, [], ◌∷◌, ◌++◌, Option, none, some, ◌⊎◌, inl, inr,
  if◌then◌else◌,
}
use nuzur_cli.Text.{Text, codes, equal}
use nuzur_cli.ExtensionRun.Config.{Value, one}
use nuzur_cli.ExtensionRun.Config.Build.{value_at}

pub data SchemaFieldType : Type 0 where
  date_field datetime_field other_field : SchemaFieldType

pub record SchemaField : Type 0 where
  pub uuid : Text
  pub identifier : Text
  pub type : SchemaFieldType
  pub unique : Bool

pub data IndexType : Type 0 where
  plain_index unique_index other_index : IndexType

-- An index with the uuids of its fields.
pub record Index : Type 0 where
  pub type : IndexType
  pub fields : List Text

-- An entity; none where there is no configuration for standalone entities, and none for an index that is nil.
pub record SchemaEntity : Type 0 where
  pub identifier : Text
  pub fields : List SchemaField
  pub indexes : Option (List (Option Index))

abbrev pub user_entity_identifiers : List Text
user_entity_identifiers = codes "user" ∷ codes "usuario" ∷ []

abbrev pub user_email_field_identifiers : List Text
user_email_field_identifiers = codes "email" ∷ codes "correo" ∷ codes "correo_electronico" ∷ []

abbrev pub user_password_identifiers : List Text
user_password_identifiers =
    codes "password"
    ∷ codes "pass"
    ∷ codes "pwd"
    ∷ codes "password_hash"
    ∷ codes "contrasena"
    ∷ codes "contraseña"
    ∷ codes "clave"
    ∷ []

abbrev pub jwt_auth_config_value : Text
jwt_auth_config_value = codes "jwt"

-- What is missing, with the entity and the field that it is about.
pub data Requirement : Type 0 where
  needs_entity : Requirement
  needs_email : Text → Requirement
  needs_index : Text → Text → Requirement

-- An entity without a password, in which nobody can sign in.
pub data Warning : Type 0 where
  no_password : Text → Warning

-- The inner loop of `firstEntityNamed` and `firstFieldNamed`.
unfoldable pub with_name : {A : Type 0} → (A → Text) → Text → List A → Option A
unfolding equal
with_name name id [] = none
with_name name id (x ∷ xs) =
    let rest = with_name name id xs in if equal (name x) id then some x else rest

unfoldable pub first_named : {A : Type 0} → (A → Text) → List Text → List A → Option A
unfolding with_name
first_named name [] xs = none
first_named name (id ∷ ids) xs = elim (with_name name id xs) [
  | some x ↦ some x
  | none ↦ first_named name ids xs
]

abbrev pub first_entity_named : List SchemaEntity → List Text → Option SchemaEntity
first_entity_named es ids = first_named (λ (e : SchemaEntity). e.identifier) ids es

abbrev pub first_field_named : SchemaEntity → List Text → Option SchemaField
first_field_named e ids = first_named (λ (f : SchemaField). f.identifier) ids e.fields

unfoldable pub field_by_uuid : List SchemaField → Text → Option SchemaField
unfolding with_name
field_by_uuid fs uuid = with_name (λ (f : SchemaField). f.uuid) uuid fs

abbrev pub unless_date : SchemaFieldType → Text → Option Text
unless_date other_field uuid = some uuid
unless_date _ uuid = none

-- A member of an index counts where it is a field, and not a date.
unfoldable pub usable_member : List SchemaField → Text → Option Text
unfolding field_by_uuid
usable_member fs uuid = elim (field_by_uuid fs uuid) [
  | none ↦ none
  | some f ↦ unless_date f.type f.uuid
]

unfoldable pub usable : List SchemaField → List Text → List Text
unfolding usable_member
usable fs [] = []
usable fs (u ∷ us) =
    let rest = usable fs us in elim (usable_member fs u) [ none ↦ rest | some v ↦ v ∷ rest ]

unfoldable pub is_only : List Text → Text → Bool
unfolding equal
is_only (v ∷ []) uuid = equal v uuid
is_only _ uuid = false

abbrev pub is_lookup : IndexType → Bool
is_lookup plain_index = true
is_lookup unique_index = true
is_lookup other_index = false

unfoldable pub any_single : List SchemaField → List (Option Index) → Text → Bool
unfolding usable is_only
any_single fs [] uuid = false
any_single fs (none ∷ is) uuid = any_single fs is uuid
any_single fs (some i ∷ is) uuid =
    (is_lookup i.type && is_only (usable fs i.fields) uuid) || any_single fs is uuid

unfoldable pub has_single_field_index : SchemaEntity → SchemaField → Bool
unfolding any_single
has_single_field_index e f = elim e.indexes [
  | none ↦ false
  | some is ↦ any_single e.fields is f.uuid
]

abbrev pub email_missing : SchemaEntity → Option SchemaField → List Requirement
email_missing e none = needs_email e.identifier ∷ []
email_missing e (some f) =
    if not f.unique && not (has_single_field_index e f)
    then needs_index e.identifier f.identifier ∷ []
    else []

abbrev pub password_warnings : SchemaEntity → Option SchemaField → List Warning
password_warnings e none = no_password e.identifier ∷ []
password_warnings e (some f) = []

abbrev pub check_user : Option SchemaEntity → List Requirement × List Warning
check_user none = (needs_entity ∷ [], [])
check_user (some e) = (
  email_missing e (first_field_named e user_email_field_identifiers),
  password_warnings e (first_field_named e user_password_identifiers),
)

unfoldable pub check_jwt_auth_schema : List SchemaEntity → List Requirement × List Warning
unfolding first_named has_single_field_index
check_jwt_auth_schema es = check_user (first_entity_named es user_entity_identifiers)

-- `configValues["auth"].(string)`
abbrev pub text_of : Option Value → Text
text_of (some (one s)) = s
text_of _ = []

-- The error on the field `auth`, where something is missing.
abbrev pub or_missing : List Requirement × List Warning → Option (List Requirement) × List Warning
or_missing ([], warnings) = (none, warnings)
or_missing (r ∷ rs, warnings) = (some (r ∷ rs), warnings)

abbrev pub checked_entities :
    Text ⊎ List SchemaEntity → Text ⊎ (Option (List Requirement) × List Warning)
checked_entities (inl e) = inl e
checked_entities (inr es) = inr (or_missing (check_jwt_auth_schema es))

unfoldable pub validate_jwt_auth_requirements :
    Text ⊎ List SchemaEntity
    → List (Text × Value)
    → Text ⊎ (Option (List Requirement) × List Warning)
unfolding equal value_at check_jwt_auth_schema
validate_jwt_auth_requirements fetched values =
    if not (equal (text_of (value_at (codes "auth") values)) jwt_auth_config_value)
    then inr (none, [])
    else checked_entities fetched
