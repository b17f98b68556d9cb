-- ===== src/App/Pairs/Merged.antt =====
-- What a field of the merged and filtered configuration holds.
use nuzur_cli.Base.{
  ◌≡◌, refl, ap, inl, inr, List, [], ◌∷◌, ◌++◌, Option, none, some, if◌then◌else◌, arith,
  Bool-cases, ltb,
}
use nuzur_cli.Text.{Text, equal}
use nuzur_cli.Text.Equal.{equal→eq}
use nuzur_cli.App.Pairs.{
  ExtensionPair, LastUsedEntry, value_of, last_used_of, alias_aware_last_config, is_known,
  filter_config_to_fields,
}

abbrev pub or_else : {V : Type 0} → Option V → Option V → Option V
or_else none other = other
or_else (some v) other = some v

value_of-++ :
    {V : Type 0} (k : Text) (xs ys : List (Text × V))
    → value_of k (xs ++ ys) ≡ or_else (value_of k xs) (value_of k ys)
unfolding value_of
value_of-++ k [] ys = refl
value_of-++ k ((name, v) ∷ xs) ys = elim (Bool-cases (equal k name)) [
  | inl is ↦ rw is refl
  | inr is_not ↦ rw is_not (value_of-++ k xs ys)
]

-- A field that the extension declares keeps its value, and no other field has one.
value_of-filter_config_to_fields :
    {V : Type 0} (k : Text) (cfg : List (Text × V)) (ids : List Text)
    → value_of k (filter_config_to_fields cfg ids)
      ≡ (if is_known k ids then value_of k cfg else none)
unfolding value_of filter_config_to_fields
value_of-filter_config_to_fields k [] ids = elim (Bool-cases (is_known k ids)) [
  | inl is ↦ rw is refl
  | inr is_not ↦ rw is_not refl
]
value_of-filter_config_to_fields k ((name, v) ∷ cfg) ids =
    let below = value_of-filter_config_to_fields k cfg ids in
    elim (Bool-cases (equal k name)) [
      | inl is ↦
          let same = ap (λ t. is_known t ids) (equal→eq k name is) in
          ground (arith, below, is, same)
      | inr is_not ↦ ground (arith, below, is_not)
    ]

-- A field of the merged configuration has its value of the newer run, or that of the older one.
value_of-alias_aware :
    {V : Type 0} (k : Text) (p : ExtensionPair) (entries : List (Text × LastUsedEntry V))
    → let remote = last_used_of (value_of p.front entries) in
      let local = last_used_of (value_of p.local entries) in
      value_of k (alias_aware_last_config p entries) ≡ (
        if ltb local.last_used remote.last_used
        then or_else (value_of k remote.config_values) (value_of k local.config_values)
        else or_else (value_of k local.config_values) (value_of k remote.config_values))
unfolding alias_aware_last_config
value_of-alias_aware k p entries =
    elim (Bool-cases (
      ltb (last_used_of (value_of p.local entries)).last_used
        (last_used_of (value_of p.front entries)).last_used)) [
          | inl newer ↦ rw newer (value_of-++ k _ _)
          | inr older ↦ rw older (value_of-++ k _ _)
        ]
