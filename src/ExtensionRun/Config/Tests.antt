-- ===== src/ExtensionRun/Config/Tests.antt =====
-- A concrete extension and configurations of it, and instances of the theorems about them.
use nuzur_cli.ExtensionRun.Config.Coerce.{
  coerce_field, coerce_typed, coerce_enum, coerce_string_array, elements,
}
use nuzur_cli.Base.{◌≡◌, refl, ◌↔◌, ℕ, true, List, [], ◌∷◌, none, some, inl, inr, All}
use nuzur_cli.Text.{Text, codes, equal, split_on, trim_func, trim_left, is_space}
use nuzur_cli.ExtensionRun.Config.{
  EnumConfig, InputField, enum_type, Raw, scalar, text, items, bool, Value, many, missing,
  unknown_field, Sources, validate_option, validate_all, enum_options,
}
use nuzur_cli.ExtensionRun.Config.Build.{
  field_schema, typed_schema, enum_schema, plain_schema, build_config_from_json, apply_fields,
  raw_for, value_at, field_entry, with_entry, unknown_keys,
}
use nuzur_cli.ExtensionRun.Config.Described.{by_schema, coerce_field-described}
use nuzur_cli.ExtensionRun.Config.Applied.{
  Declared, FineAt, OfField, build_config_from_json_iff, Entered,
}

abbrev no_sources : Sources ℕ
no_sources = record {
  entities = inr [];
  db_connections = inr [];
  db_stores = inr [];
  online_agents = inl [];
  format_float = λ x. [];
  is_float = λ s. true;
}

abbrev sides : EnumConfig
sides = record {
  options =
      record { identifier = codes "app"; value = [] }
      ∷ record { identifier = codes "db"; value = [] }
      ∷ [];
  allow_multiple = true;
}

abbrev parts : InputField
parts = record {
  identifier = codes "parts";
  display_name = [];
  description = [];
  type = enum_type;
  required = true;
  uuid_entity = none;
  enum = some sides;
  array = none;
}

coerce_field-split :
    coerce_field no_sources parts (scalar (text (codes "app, db")))
    ≡ inr (many (codes "app" ∷ codes "db" ∷ []))
unfolding coerce_field coerce_typed coerce_enum enum_options coerce_string_array elements split_on
    trim_func trim_left is_space validate_all validate_option equal
coerce_field-split = refl

build_config_from_json-wrong :
    build_config_from_json no_sources
      (some (parts ∷ []))
      ((codes "part", scalar (bool true)) ∷ [])
      []
    ≡ inl (
        record { field = codes "part"; problem = unknown_field }
        ∷ record { field = codes "parts"; problem = missing }
        ∷ [])
unfolding build_config_from_json apply_fields raw_for value_at field_entry with_entry unknown_keys
    equal
build_config_from_json-wrong = refl

coerce_field-described_example :
    coerce_field no_sources parts (items (text (codes "web") ∷ []))
    ≡ by_schema no_sources
        (enum_schema (some sides) (plain_schema parts))
        (items (text (codes "web") ∷ []))
unfolding field_schema typed_schema
coerce_field-described_example =
    coerce_field-described no_sources parts (enum_schema (some sides) (plain_schema parts))
      (items (text (codes "web") ∷ [])) tt refl

abbrev chosen : List (Text × Raw ℕ)
chosen = (codes "parts", scalar (text (codes "db"))) ∷ []

build_config_from_json_iff_example :
    ((values : List (Text × Value)) × (build_config_from_json no_sources
          (some (parts ∷ []))
          chosen
          []
        ≡ inr values)
      × All (OfField no_sources chosen [] (parts ∷ [])) values
      × All (Entered no_sources chosen [] values) (parts ∷ []))
    ↔ (All (Declared (parts ∷ [])) chosen × All (FineAt no_sources chosen []) (parts ∷ []))
build_config_from_json_iff_example = build_config_from_json_iff no_sources parts [] chosen []
