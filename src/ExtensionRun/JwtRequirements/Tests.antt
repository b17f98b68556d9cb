-- ===== src/ExtensionRun/JwtRequirements/Tests.antt =====
-- Projects for the JWT server, and an instance of the theorem about them.
use nuzur_cli.ExtensionRun.JwtRequirements.Ready.{IsReady, validate_jwt_auth_requirements_iff}
use nuzur_cli.ExtensionRun.Config.Build.{value_at}
use nuzur_cli.Base.{◌≡◌, refl, ◌↔◌, List, [], ◌∷◌, none, some, inr, false}
use nuzur_cli.Text.{Text, codes, equal}
use nuzur_cli.ExtensionRun.Config.{Value, one}
use nuzur_cli.ExtensionRun.JwtRequirements.{
  SchemaField, other_field, date_field, SchemaEntity, Index, plain_index, Warning, no_password,
  needs_index, validate_jwt_auth_requirements, check_jwt_auth_schema, text_of, first_named,
  with_name, has_single_field_index, any_single, usable, usable_member, field_by_uuid, is_only,
}

abbrev email_field : SchemaField
email_field = record {
  uuid = codes "f1";
  identifier = codes "correo";
  type = other_field;
  unique = false;
}

abbrev created_field : SchemaField
created_field = record {
  uuid = codes "f2";
  identifier = codes "created";
  type = date_field;
  unique = false;
}

abbrev by_email : Index
by_email = record { type = plain_index; fields = codes "f1" ∷ codes "f2" ∷ [] }

abbrev user_entity : SchemaEntity
user_entity = record {
  identifier = codes "usuario";
  fields = email_field ∷ created_field ∷ [];
  indexes = some (none ∷ some by_email ∷ []);
}

abbrev selected : List (Text × Value)
selected = (codes "auth", one (codes "jwt")) ∷ []

validate_jwt_auth_requirements-dated :
    validate_jwt_auth_requirements (inr (user_entity ∷ [])) selected
    ≡ inr (none, no_password (codes "usuario") ∷ [])
unfolding validate_jwt_auth_requirements check_jwt_auth_schema value_at equal first_named with_name
    has_single_field_index any_single usable usable_member field_by_uuid is_only
validate_jwt_auth_requirements-dated = refl

validate_jwt_auth_requirements-lacking :
    validate_jwt_auth_requirements (inr (record user_entity { indexes = none } ∷ [])) selected
    ≡ inr (
      some (needs_index (codes "usuario") (codes "correo") ∷ []),
      no_password (codes "usuario") ∷ [],
    )
unfolding validate_jwt_auth_requirements check_jwt_auth_schema value_at equal first_named with_name
    has_single_field_index any_single usable usable_member field_by_uuid is_only
validate_jwt_auth_requirements-lacking = refl

validate_jwt_auth_requirements_iff_example :
    ((w : List Warning) × (validate_jwt_auth_requirements (inr (user_entity ∷ [])) selected
        ≡ inr (none, w)))
    ↔ (text_of (value_at (codes "auth") selected) ≡ codes "jwt" → IsReady (user_entity ∷ []))
validate_jwt_auth_requirements_iff_example =
    validate_jwt_auth_requirements_iff (user_entity ∷ []) selected
