-- ===== src/ExtensionRun/Config/Described.antt =====
-- A value is checked against the options that are described.
use nuzur_cli.ExtensionRun.Config.Coerce.{
  coerce_string_array, coerce_one, array_options, coerce_enum, coerce_typed, coerce_field,
  coerce_scalar_string, element_options, options_for_entity_type,
}
use mathlib.Core.Sum
use nuzur_cli.Text.{Text}
use nuzur_cli.Base.{
  ◌≡◌, refl, false, [], Option, none, some, ◌⊎◌, if◌then◌else◌, List, inr, subst, ◌∙◌, inl, ap,
  true,
}
use nuzur_cli.ExtensionRun.Config.{
  InputType, uuid_type, enum_type, array_type, EnumConfig, Raw, Value, Problem, Sources,
  ConfigOption, Text, InputField, ◌>>=◌, ArrayConfig, checked, uuid_field_entity_type, one,
  validate_option, integer_type, type_name, float_type, boolean_type, string_type, date_type,
  datetime_type, enum_options,
}
use nuzur_cli.ExtensionRun.Config.Build.{
  FieldSchema, enum_schema, typed_schema, array_schema, field_schema, plain_schema,
  schema_element_options,
}

-- A field whose values are chosen among options.
abbrev pub IsChoice : InputType → Type 0
IsChoice uuid_type = Unit
IsChoice enum_type = Unit
IsChoice array_type = Unit
IsChoice _ = ⊥

module _ {F : Type 0} (w : Sources F) where
  -- The value that is accepted of a description.
  abbrev pub by_schema : FieldSchema → Raw F → Problem ⊎ Value
  by_schema fs raw =
      if fs.multiple then coerce_string_array w raw fs.options else coerce_one w raw fs.options

  enum-described :
      (cfg : Option EnumConfig) (fs : FieldSchema) (raw : Raw F)
      → fs.multiple ≡ false
      → fs.options ≡ []
      → coerce_enum w cfg raw ≡ by_schema (enum_schema cfg fs) raw
  unfolding coerce_enum enum_schema
  enum-described none fs raw m o = rw m (rw o refl)
  enum-described (some cfg) fs raw m o = refl

  enum_options-same :
      (cfg : Option EnumConfig)
      → Path
          (Problem ⊎ List ConfigOption)
          (inr (enum_options cfg))
          (elim cfg [ none ↦ inr [] | some c ↦ inr (enum_options (some c)) ])
  unfolding enum_options
  enum_options-same none = refl
  enum_options-same (some cfg) = refl

  -- The two switches over the elements of an array find the same options.
  element_options-same :
      (identifier : Text) (t : InputType) (a : ArrayConfig)
      → element_options w identifier t a ≡ schema_element_options w identifier t a
  unfolding element_options schema_element_options
  element_options-same identifier uuid_type a = refl
  element_options-same identifier enum_type a = enum_options-same a.enum
  element_options-same identifier integer_type a = refl
  element_options-same identifier float_type a = refl
  element_options-same identifier boolean_type a = refl
  element_options-same identifier string_type a = refl
  element_options-same identifier date_type a = refl
  element_options-same identifier datetime_type a = refl
  element_options-same identifier array_type a = refl

  uuid-described :
      (options : Problem ⊎ List ConfigOption) (base fs : FieldSchema) (raw : Raw F)
      → base.multiple ≡ false
      → (options >>= λ opts. inr (record base { options = opts })) ≡ inr fs
      → (coerce_scalar_string w raw >>= λ s.
          options >>= λ opts. checked (one s) (validate_option s opts))
        ≡ by_schema fs raw
  unfolding coerce_one
  uuid-described (inl p) base fs raw m h = cc
  uuid-described (inr opts) base fs raw m h =
      subst (λ (g : FieldSchema). coerce_one w raw opts ≡ by_schema g raw) (Sum.inr-injective _ _ h)
        (rw m refl)

  array-described :
      (identifier : Text) (cfg : Option ArrayConfig) (base fs : FieldSchema) (raw : Raw F)
      → base.options ≡ []
      → array_schema w identifier cfg base ≡ inr fs
      → (array_options w identifier cfg >>= λ opts. coerce_string_array w raw opts)
        ≡ by_schema fs raw
  unfolding array_schema array_options
  array-described identifier none base fs raw o h =
      subst (λ (g : FieldSchema). coerce_string_array w raw [] ≡ by_schema g raw)
        (Sum.inr-injective _ _ h) (rw o refl)
  array-described identifier (some a) base fs raw o h =
      ap
        (λ (options : Problem ⊎ List ConfigOption).
          options >>= λ opts. coerce_string_array w raw opts)
        (element_options-same identifier a.array_type a)
      ∙ elements-described (schema_element_options w identifier a.array_type a) h
    where
      elements-described :
          (options : Problem ⊎ List ConfigOption)
          → (options >>= λ opts.
              inr (record base { multiple = true; type = type_name a.array_type; options = opts }))
            ≡ inr fs
          → (options >>= λ opts. coerce_string_array w raw opts) ≡ by_schema fs raw
      elements-described (inl p) e = cc
      elements-described (inr opts) e =
          subst (λ (g : FieldSchema). coerce_string_array w raw opts ≡ by_schema g raw)
            (Sum.inr-injective _ _ e) refl

  typed-described :
      (f : InputField) (t : InputType) (fs : FieldSchema) (raw : Raw F)
      → IsChoice t
      → typed_schema w f t ≡ inr fs
      → coerce_typed w f t raw ≡ by_schema fs raw
  unfolding typed_schema coerce_typed
  typed-described f uuid_type fs raw c h =
      uuid-described (options_for_entity_type w (uuid_field_entity_type f) f.identifier [])
        (plain_schema f) fs raw refl h
  typed-described f enum_type fs raw c h =
      enum-described f.enum (plain_schema f) raw refl refl
      ∙ ap (λ (g : FieldSchema). by_schema g raw) (Sum.inr-injective _ _ h)
  typed-described f array_type fs raw c h =
      array-described f.identifier f.array (plain_schema f) fs raw refl h
  typed-described f integer_type fs raw c h = absurd c
  typed-described f float_type fs raw c h = absurd c
  typed-described f boolean_type fs raw c h = absurd c
  typed-described f string_type fs raw c h = absurd c
  typed-described f date_type fs raw c h = absurd c
  typed-described f datetime_type fs raw c h = absurd c

  -- If a field whose values are chosen among options is described, then a value for it is checked the way the description
  -- says: against the options that it lists, and as a list exactly if it says that there may be several.
  pub coerce_field-described :
      (f : InputField) (fs : FieldSchema) (raw : Raw F)
      → IsChoice f.type
      → field_schema w f ≡ inr fs
      → coerce_field w f raw ≡ by_schema fs raw
  unfolding coerce_field field_schema
  coerce_field-described f fs raw c h = typed-described f f.type fs raw c h
