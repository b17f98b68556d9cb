-- ===== src/ExtensionRun/Config/Coerce.antt =====
-- extensionrun/config_schema.go from `OptionsForEntityType` on, and `coerceField` of config_apply.go.
use nuzur_cli.Base.{List, [], ◌∷◌, Option, none, some, ◌⊎◌, inl, inr, if◌then◌else◌, map}
use nuzur_cli.Text.{Text, codes, split_on}
use nuzur_cli.ExtensionRun.Config.{
  Sources, coerce_bool, InputField, enum_options, Scalar, connection_options, show_int,
  validate_option, effective_entity_type, ArrayConfig, validate_all, Raw, ConfigOption, Problem,
  EntityType, EnumConfig, InputType, as_problem, scalar, ◌>>=◌, Value, items, text, uuid_type,
  uuid_field_entity_type, bool, one, enum_type, checked, option_of, texts, not_scalar, boolean_type,
  nonblank, many, float, not_number, agent_option, entity_standalone, not_array, integer_type,
  integer, db_connection, float_type, composite, db_store, array_type, local_agent,
  local_agent_connection, entity_invalid, entity_other,
}

module _ {F : Type 0} (w : Sources F) where
  -- The body of `OptionsForEntityType`, with the agent that connections are limited to, or none.
  unfoldable pub options_of : EntityType → Text → Problem ⊎ List ConfigOption
  unfolding connection_options
  options_of entity_standalone agent = as_problem w.entities >>= λ es. inr (map option_of es)
  options_of db_connection agent = as_problem w.db_connections >>= λ cs. inr (map option_of cs)
  options_of db_store agent = as_problem w.db_stores >>= λ ss. inr (map option_of ss)
  options_of local_agent agent = as_problem w.online_agents >>= λ ags. inr (map agent_option ags)
  options_of local_agent_connection agent =
      as_problem w.online_agents >>= λ ags. inr (connection_options agent ags)
  options_of entity_invalid agent = inr []
  options_of entity_other agent = inr []

  unfoldable pub options_for_entity_type : EntityType → Text → Text → Problem ⊎ List ConfigOption
  unfolding options_of effective_entity_type
  options_for_entity_type declared identifier agent =
      options_of (effective_entity_type declared identifier) agent

  unfoldable pub coerce_scalar : Scalar F → Problem ⊎ Text
  unfolding show_int
  coerce_scalar (text s) = inr s
  coerce_scalar (bool b) = inr (if b then codes "true" else codes "false")
  coerce_scalar (float x) = inr (w.format_float x)
  coerce_scalar (integer n) = inr (show_int n)
  coerce_scalar composite = inl not_scalar

  unfoldable pub coerce_scalar_string : Raw F → Problem ⊎ Text
  unfolding coerce_scalar
  coerce_scalar_string (scalar s) = coerce_scalar s
  coerce_scalar_string _ = inl not_scalar

  unfoldable pub coerce_items : List (Scalar F) → Problem ⊎ List Text
  unfolding coerce_scalar
  coerce_items [] = inr []
  coerce_items (x ∷ xs) = coerce_scalar x >>= λ s. coerce_items xs >>= λ rest. inr (s ∷ rest)

  -- The elements of `coerceStringArray`, before they are checked.
  unfoldable pub elements : Raw F → Problem ⊎ List Text
  unfolding coerce_items
  elements (items xs) = coerce_items xs
  elements (texts ss) = inr ss
  elements (scalar (text s)) = inr (nonblank (split_on b',' s))
  elements _ = inl not_array

  unfoldable pub coerce_string_array : Raw F → List ConfigOption → Problem ⊎ Value
  unfolding elements validate_all
  coerce_string_array raw opts = elements raw >>= λ ss. checked (many ss) (validate_all ss opts)

  unfoldable pub coerce_one : Raw F → List ConfigOption → Problem ⊎ Value
  unfolding coerce_scalar_string validate_option
  coerce_one raw opts = coerce_scalar_string raw >>= λ s. checked (one s) (validate_option s opts)

  unfoldable pub coerce_number : Raw F → Problem ⊎ Value
  unfolding coerce_scalar_string
  coerce_number raw =
      coerce_scalar_string raw >>= λ s. if w.is_float s then inr (one s) else inl (not_number s)

  -- The switch of `coerceField` on the type of an array's elements.
  unfoldable pub element_options : Text → InputType → ArrayConfig → Problem ⊎ List ConfigOption
  unfolding options_for_entity_type enum_options
  element_options identifier uuid_type a = elim a.uuid_entity [
    | none ↦ inr []
    | some e ↦ options_for_entity_type e identifier []
  ]
  element_options identifier enum_type a = inr (enum_options a.enum)
  element_options identifier _ a = inr []

  unfoldable pub array_options : Text → Option ArrayConfig → Problem ⊎ List ConfigOption
  unfolding element_options
  array_options identifier none = inr []
  array_options identifier (some a) = element_options identifier a.array_type a

  unfoldable pub coerce_enum : Option EnumConfig → Raw F → Problem ⊎ Value
  unfolding coerce_one coerce_string_array enum_options
  coerce_enum none raw = coerce_one raw []
  coerce_enum (some cfg) raw =
      if cfg.allow_multiple
      then coerce_string_array raw (enum_options (some cfg))
      else coerce_one raw (enum_options (some cfg))

  unfoldable pub coerce_typed : InputField → InputType → Raw F → Problem ⊎ Value
  unfolding coerce_bool coerce_number coerce_enum coerce_one array_options coerce_string_array
      options_for_entity_type
  coerce_typed f boolean_type raw = coerce_bool raw
  coerce_typed f integer_type raw = coerce_number raw
  coerce_typed f float_type raw = coerce_number raw
  coerce_typed f uuid_type raw = coerce_scalar_string raw >>= λ s.
      options_for_entity_type (uuid_field_entity_type f) f.identifier [] >>= λ opts.
      checked (one s) (validate_option s opts)
  coerce_typed f enum_type raw = coerce_enum f.enum raw
  coerce_typed f array_type raw =
      array_options f.identifier f.array >>= λ opts. coerce_string_array raw opts
  coerce_typed f _ raw = coerce_scalar_string raw >>= λ s. inr (one s)

  unfoldable pub coerce_field : InputField → Raw F → Problem ⊎ Value
  unfolding coerce_typed
  coerce_field f raw = coerce_typed f f.type raw
