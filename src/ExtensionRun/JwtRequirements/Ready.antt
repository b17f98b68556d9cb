-- ===== src/ExtensionRun/JwtRequirements/Ready.antt =====
-- Which entities the JWT server can be made of.
use nuzur_cli.ExtensionRun.JwtRequirements.Named.{first_named-first, equal-cases, IsFirstNamed}
use nuzur_cli.ExtensionRun.Config.Build.{value_at}
use nuzur_cli.ExtensionRun.Config.{Value}
use nuzur_cli.Text.Equal.{equal→eq, equal_refl}
use mathlib.Core.Sum
use mathlib.Core.Option.{some-injective}
use nuzur_cli.Base.{
  ◌&&◌, ◌||◌, ◌≡◌, refl, ◌↔◌, true, false, List, [], ◌∷◌, Option, none, some, ◌⊎◌, inl, inr, All,
  Bool, Any, ap, if◌then◌else◌, not, subst, sym,
}
use nuzur_cli.Text.{Text, codes}
use nuzur_cli.ExtensionRun.JwtRequirements.{
  SchemaField, usable_member, usable, Index, has_single_field_index, is_only, SchemaEntity,
  any_single, check_user, is_lookup, user_entity_identifiers, email_missing, first_field_named,
  user_email_field_identifiers, needs_index, check_jwt_auth_schema, validate_jwt_auth_requirements,
  Requirement, Warning, first_entity_named, text_of, or_missing,
}

module _ (fs : List SchemaField) where
  -- A list of members of an index of which one counts, the field with this uuid.
  abbrev pub IsOnlyUsable : List Text → Text → Type 0
  IsOnlyUsable [] uuid = ⊥
  IsOnlyUsable (u ∷ us) uuid =
      ((usable_member fs u ≡ some uuid) × All (λ v. usable_member fs v ≡ none) us)
      ⊎ ((usable_member fs u ≡ none) × IsOnlyUsable us uuid)

  usable-nil : (us : List Text) → (usable fs us ≡ []) ↔ All (λ v. usable_member fs v ≡ none) us
  unfolding usable
  usable-nil [] = (λ e. tt, λ h. refl)
  usable-nil (u ∷ us) = nil_after u us _ refl (usable-nil us)
    where
      nil_after :
          (u : Text) (us : List Text) (m : Option Text)
          → usable_member fs u ≡ m
          → ((usable fs us ≡ []) ↔ All (λ v. usable_member fs v ≡ none) us)
          → (usable fs (u ∷ us) ≡ []) ↔ All (λ v. usable_member fs v ≡ none) (u ∷ us)
      nil_after u us none e later = rw (e, usable) (λ h. (refl, later.0 h), λ h. later.1 h.1)
      nil_after u us (some v) e later = rw (e, usable) (λ h. cc, λ h. cc (h.0))

  usable-one : (us : List Text) (uuid : Text) → (usable fs us ≡ uuid ∷ []) ↔ IsOnlyUsable us uuid
  unfolding usable
  usable-one [] uuid = (λ e. cc, λ h. absurd h)
  usable-one (u ∷ us) uuid = one_after u us _ refl (usable-one us uuid)
    where
      one_after :
          (u : Text) (us : List Text) (m : Option Text)
          → usable_member fs u ≡ m
          → ((usable fs us ≡ uuid ∷ []) ↔ IsOnlyUsable us uuid)
          → (usable fs (u ∷ us) ≡ uuid ∷ []) ↔ IsOnlyUsable (u ∷ us) uuid
      one_after u us none e later =
          rw (e, usable)
            (λ h. inr (refl, later.0 h), λ h. elim h [ inl f ↦ cc (f.0) | inr g ↦ later.1 g.1 ])
      one_after u us (some v) e later =
          rw (e, usable)
            (
              λ h. inl (cc h, (usable-nil us).0 (cc h)),
              λ h. elim h [
                | inl f ↦ cc (some-injective _ _ f.0, (usable-nil us).1 f.1)
                | inr g ↦ cc (g.0)
              ],
            )

  is_only_iff : (vs : List Text) (uuid : Text) → (is_only vs uuid ≡ true) ↔ (vs ≡ uuid ∷ [])
  unfolding is_only
  is_only_iff [] uuid = (λ e. cc, λ e. cc)
  is_only_iff (v ∷ []) uuid =
      (λ e. ap (λ (t : Text). t ∷ []) (equal→eq v uuid e), λ e. cc (equal_refl v))
  is_only_iff (v ∷ u ∷ us) uuid = (λ e. cc, λ e. cc)

  -- A plain or unique index, of whose members only this field counts.
  abbrev pub IsIndexOf : Text → Option Index → Type 0
  IsIndexOf uuid none = ⊥
  IsIndexOf uuid (some i) = (is_lookup i.type ≡ true) × IsOnlyUsable i.fields uuid

  and_iff : (a b : Bool) → ((a && b) ≡ true) ↔ ((a ≡ true) × (b ≡ true))
  and_iff true b = (λ e. (refl, e), λ h. h.1)
  and_iff false b = (λ e. cc, λ h. h.0)

  or_iff : (a b : Bool) → ((a || b) ≡ true) ↔ ((a ≡ true) ⊎ (b ≡ true))
  or_iff true b = (λ e. inl refl, λ h. refl)
  or_iff false b = (λ e. inr e, λ h. elim h [ inl e ↦ cc | inr e ↦ e ])

  index_iff :
      (uuid : Text) (i : Index)
      → ((is_lookup i.type && is_only (usable fs i.fields) uuid) ≡ true) ↔ IsIndexOf uuid (some i)
  index_iff uuid i =
      let both = and_iff (is_lookup i.type) (is_only (usable fs i.fields) uuid) in
      let only = is_only_iff (usable fs i.fields) uuid in
      let one = usable-one i.fields uuid in
      (λ e. ((both.0 e).0, one.0 (only.0 (both.0 e).1)), λ h. both.1 (h.0, only.1 (one.1 h.1)))

  any_single_iff :
      (is : List (Option Index)) (uuid : Text)
      → (any_single fs is uuid ≡ true) ↔ Any (IsIndexOf uuid) is
  unfolding any_single
  any_single_iff [] uuid = (λ e. cc, λ h. absurd h)
  any_single_iff (none ∷ is) uuid = (
    λ e. inr ((any_single_iff is uuid).0 e),
    λ h. elim h [ inl f ↦ absurd f | inr g ↦ (any_single_iff is uuid).1 g ],
  )
  any_single_iff (some i ∷ is) uuid =
      let either =
        or_iff (is_lookup i.type && is_only (usable fs i.fields) uuid) (any_single fs is uuid) in
      (
        λ e. elim (either.0 e) [
          | inl f ↦ inl ((index_iff uuid i).0 f)
          | inr g ↦ inr ((any_single_iff is uuid).0 g)
        ],
        λ h. elim h [
          | inl f ↦ either.1 (inl ((index_iff uuid i).1 f))
          | inr g ↦ either.1 (inr ((any_single_iff is uuid).1 g))
        ],
      )

abbrev pub HasIndexOf : List SchemaField → Option (List (Option Index)) → Text → Type 0
HasIndexOf fs none uuid = ⊥
HasIndexOf fs (some is) uuid = Any (IsIndexOf fs uuid) is

has_index_iff :
    (e : SchemaEntity) (f : SchemaField)
    → (has_single_field_index e f ≡ true) ↔ HasIndexOf e.fields e.indexes f.uuid
unfolding has_single_field_index
has_index_iff e f = indexes_iff e.indexes
  where
    indexes_iff :
        (is : Option (List (Option Index)))
        → ((elim is [ none ↦ false | some is ↦ any_single e.fields is f.uuid ]) ≡ true)
          ↔ HasIndexOf e.fields is f.uuid
    indexes_iff none = (λ h. cc, λ h. absurd h)
    indexes_iff (some is) = any_single_iff e.fields is f.uuid

-- A field for which the lookup is generated that signing in uses.
abbrev pub IsLookupField : SchemaEntity → SchemaField → Type 0
IsLookupField e f = (f.unique ≡ true) ⊎ HasIndexOf e.fields e.indexes f.uuid

abbrev pub IsReady : List SchemaEntity → Type 0
IsReady es =
    (e : SchemaEntity) × IsFirstNamed (λ (x : SchemaEntity). x.identifier) user_entity_identifiers
      es e
    × ((f : SchemaField) × IsFirstNamed (λ (x : SchemaField). x.identifier)
          user_email_field_identifiers e.fields f
        × IsLookupField e f)

field-nil :
    (e : SchemaEntity) (f : SchemaField) (a b : Bool)
    → ((if not a && not b then needs_index e.identifier f.identifier ∷ [] else []) ≡ [])
      ↔ ((a ≡ true) ⊎ (b ≡ true))
field-nil e f true b = (λ h. inl refl, λ h. refl)
field-nil e f false true = (λ h. inr refl, λ h. refl)
field-nil e f false false = (λ h. cc, λ h. elim h [ inl e ↦ cc | inr e ↦ cc ])

email-nil :
    (e : SchemaEntity) (found : Option SchemaField)
    → (email_missing e found ≡ []) ↔ ((f : SchemaField) × (found ≡ some f) × IsLookupField e f)
email-nil e none = (λ h. cc, λ h. cc (h.1))
email-nil e (some f) = lookup_nil (has_index_iff e f)
  where
    lookup_nil :
        ((has_single_field_index e f ≡ true) ↔ HasIndexOf e.fields e.indexes f.uuid)
        → (email_missing e (some f) ≡ [])
          ↔ ((g : SchemaField) × (some f ≡ some g) × IsLookupField e g)
    lookup_nil index =
        let nil = field-nil e f f.unique (has_single_field_index e f) in
        (
          λ h. (f, refl, elim (nil.0 h) [ inl u ↦ inl u | inr i ↦ inr (index.0 i) ]),
          λ (g, same, h).
              elim (subst (λ (x : SchemaField). IsLookupField e x) (sym (some-injective _ _ same))
                h) [ inl u ↦ nil.1 (inl u) | inr i ↦ nil.1 (inr (index.1 i)) ],
        )

user-nil :
    (found : Option SchemaEntity)
    → ((check_user found).0 ≡ []) ↔ (
        (e : SchemaEntity) × (found ≡ some e)
        × (email_missing e (first_field_named e user_email_field_identifiers) ≡ []))
user-nil none = (λ h. cc, λ h. cc (h.1))
user-nil (some e) = (
  λ h. (e, refl, h),
  λ (d, same, h).
      subst
        (λ (x : SchemaEntity).
          email_missing x (first_field_named x user_email_field_identifiers) ≡ [])
        (sym (some-injective _ _ same)) h,
)

schema-nil : (es : List SchemaEntity) → ((check_jwt_auth_schema es).0 ≡ []) ↔ IsReady es
unfolding check_jwt_auth_schema
schema-nil es =
    let user = user-nil (first_entity_named es user_entity_identifiers) in
    let email =
      λ (e : SchemaEntity). email-nil e (first_field_named e user_email_field_identifiers) in
    let found_user = λ (e : SchemaEntity).
      first_named-first (λ (x : SchemaEntity). x.identifier) user_entity_identifiers es e in
    let found_email = λ (e : SchemaEntity).
      first_named-first (λ (x : SchemaField). x.identifier) user_email_field_identifiers e.fields in
    (
      λ h.
          let (e, is_user, none_missing) = user.0 h in
          let (f, is_email, looked_up) = (email e).0 none_missing in
          (e, (found_user e).0 is_user, (f, (found_email e f).0 is_email, looked_up)),
      λ (e, is_user, (f, is_email, looked_up)).
          user.1
            (e, (found_user e).1 is_user, (email e).1 (f, (found_email e f).1 is_email, looked_up)),
    )

or_missing-none :
    (r : List Requirement × List Warning)
    → ((w : List Warning) × (or_missing r ≡ (none, w))) ↔ (r.0 ≡ [])
or_missing-none ([], w) = (λ h. refl, λ h. (w, refl))
or_missing-none (m ∷ ms, w) = (λ h. cc (h.1), λ h. cc)

-- For the entities of a project, no requirement is missing exactly if the configuration does not select JWT, or
-- the first entity that is named as a user has a first field that is named as an email, and this field is unique, or there
-- is a plain or unique index of whose members it is the only one that is a field and not a date.
pub validate_jwt_auth_requirements_iff :
    (es : List SchemaEntity) (values : List (Text × Value))
    → ((w : List Warning) × (validate_jwt_auth_requirements (inr es) values ≡ inr (none, w)))
      ↔ (text_of (value_at (codes "auth") values) ≡ codes "jwt" → IsReady es)
unfolding validate_jwt_auth_requirements
validate_jwt_auth_requirements_iff es values =
    elim (equal-cases (text_of (value_at (codes "auth") values)) (codes "jwt")) [
      | inl (same, e) ↦ rw same (
        λ (w, h) chosen.
            (schema-nil es).0
              ((or_missing-none (check_jwt_auth_schema es)).0 (w, Sum.inr-injective _ _ h)),
        λ ready.
            let (w, h) =
              (or_missing-none (check_jwt_auth_schema es)).1 ((schema-nil es).1 (ready e)) in
            (w, ap inr h),
      )
      | inr (other, n) ↦ rw other (λ h e. absurd (n e), λ h. ([], refl))
    ]
