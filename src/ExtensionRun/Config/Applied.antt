-- ===== src/ExtensionRun/Config/Applied.antt =====
-- When a configuration is made of what a caller provides, and of what it is made.
use nuzur_cli.ExtensionRun.Config.Coerce.{coerce_field}
use nuzur_cli.Base.{
  ◌≡◌, refl, ◌↔◌, Bool, true, false, List, [], ◌∷◌, ◌++◌, Option, none, some, ◌⊎◌, inl, inr,
  Bool-cases, All, Any, All-append,
}
use nuzur_cli.Text.{Text}
use nuzur_cli.ExtensionRun.Config.{
  InputField, Raw, null, scalar, items, texts, Value, Problem, Sources,
}
use nuzur_cli.ExtensionRun.Config.Build.{
  FieldError, raw_for, is_declared, unknown_keys, if_required, field_entry, with_entry,
  apply_fields, or_errors, build_config_from_json,
}

Any-before : {A : Type 0} (P : A → Type 0) (xs ys : List A) → Any P xs → Any P (xs ++ ys)
Any-before P [] ys h = absurd h
Any-before P (x ∷ xs) ys (inl h) = inl h
Any-before P (x ∷ xs) ys (inr h) = inr (Any-before P xs ys h)

Any-last : {A : Type 0} (P : A → Type 0) (xs : List A) (y : A) → P y → Any P (xs ++ (y ∷ []))
Any-last P [] y h = inl h
Any-last P (x ∷ xs) y h = inr (Any-last P xs y h)

module _ {F : Type 0} (w : Sources F) where
  abbrev pub Coerces : InputField → Raw F → Type 0
  Coerces f raw = (v : Value) × (coerce_field w f raw ≡ inr v)

  -- A field without a value is not required, and a value is coerced.
  abbrev pub Fine : InputField → Option (Raw F) → Type 0
  Fine f none = f.required ≡ false
  Fine f (some null) = f.required ≡ false
  Fine f (some (scalar s)) = Coerces f (scalar s)
  Fine f (some (items xs)) = Coerces f (items xs)
  Fine f (some (texts ss)) = Coerces f (texts ss)

  abbrev Good : Option (Problem ⊎ Value) → Type 0
  Good none = Unit
  Good (some (inl p)) = ⊥
  Good (some (inr v)) = Unit

  required-Good : (b : Bool) → Good (if_required b) ↔ (b ≡ false)
  required-Good true = (λ h. absurd h, λ e. cc)
  required-Good false = (λ h. refl, λ e. tt)

  coerced-Good : (r : Problem ⊎ Value) → Good (some r) ↔ ((v : Value) × (r ≡ inr v))
  coerced-Good (inl p) = (λ h. absurd h, λ (v, e). cc)
  coerced-Good (inr v) = (λ h. (v, refl), λ e. tt)

  entry-Good : (f : InputField) (raw : Option (Raw F)) → Good (field_entry w f raw) ↔ Fine f raw
  unfolding field_entry
  entry-Good f none = required-Good f.required
  entry-Good f (some null) = required-Good f.required
  entry-Good f (some (scalar s)) = coerced-Good (coerce_field w f (scalar s))
  entry-Good f (some (items xs)) = coerced-Good (coerce_field w f (items xs))
  entry-Good f (some (texts ss)) = coerced-Good (coerce_field w f (texts ss))

  with_entry-nil :
      (identifier : Text) (entry : Option (Problem ⊎ Value))
      (r : List FieldError × List (Text × Value))
      → ((with_entry w identifier entry r).0 ≡ []) ↔ (Good entry × (r.0 ≡ []))
  unfolding with_entry
  with_entry-nil identifier none r = (λ e. (tt, e), λ h. h.1)
  with_entry-nil identifier (some (inl p)) r = (λ e. cc, λ h. absurd h.0)
  with_entry-nil identifier (some (inr v)) r = (λ e. (tt, e), λ h. h.1)

  module _ (provided last : List (Text × Raw F)) where
    abbrev pub FineAt : InputField → Type 0
    FineAt f = Fine f (raw_for provided last f.identifier)

    apply-nil : (fs : List InputField) → ((apply_fields w provided last fs).0 ≡ []) ↔ All FineAt fs
    unfolding apply_fields
    apply-nil [] = (λ e. tt, λ h. refl)
    apply-nil (f ∷ fs) =
        let raw = raw_for provided last f.identifier in
        let entry =
          with_entry-nil f.identifier (field_entry w f raw) (apply_fields w provided last fs) in
        (
          λ e. ((entry-Good f raw).0 (entry.0 e).0, (apply-nil fs).0 (entry.0 e).1),
          λ h. entry.1 ((entry-Good f raw).1 h.0, (apply-nil fs).1 h.1),
        )

    -- A value of the result is what some field with its name is coerced to.
    abbrev pub OfField : List InputField → Text × Value → Type 0
    OfField fs (identifier, v) =
        Any
          (λ (f : InputField).
            (f.identifier ≡ identifier)
            × (field_entry w f (raw_for provided last f.identifier) ≡ some (inr v)))
          fs

    further :
        (f : InputField) (fs : List InputField) (vs : List (Text × Value))
        → All (OfField fs) vs
        → All (OfField (f ∷ fs)) vs
    further f fs [] h = tt
    further f fs ((identifier, v) ∷ vs) h = (inr h.0, further f fs vs h.1)

    entered-OfField :
        (f : InputField) (fs : List InputField) (entry : Option (Problem ⊎ Value))
        (r : List FieldError × List (Text × Value))
        → field_entry w f (raw_for provided last f.identifier) ≡ entry
        → All (OfField fs) r.1
        → All (OfField (f ∷ fs)) (with_entry w f.identifier entry r).1
    unfolding with_entry
    entered-OfField f fs none (errs, vs) e h = further f fs vs h
    entered-OfField f fs (some (inl p)) (errs, vs) e h = further f fs vs h
    entered-OfField f fs (some (inr v)) (errs, vs) e h =
        All-append (OfField (f ∷ fs)) vs _ (further f fs vs h) (inl (refl, e), tt)

    apply-OfField : (fs : List InputField) → All (OfField fs) (apply_fields w provided last fs).1
    unfolding apply_fields
    apply-OfField [] = tt
    apply-OfField (f ∷ fs) =
        entered-OfField f fs _ (apply_fields w provided last fs) refl (apply-OfField fs)

    -- A field that was coerced has its value in the result.
    abbrev EnteredAs : List (Text × Value) → Text → Option (Problem ⊎ Value) → Type 0
    EnteredAs values identifier (some (inr v)) =
        Any (λ (e : Text × Value). (e.0 ≡ identifier) × (e.1 ≡ v)) values
    EnteredAs values identifier _ = Unit

    abbrev pub Entered : List (Text × Value) → InputField → Type 0
    Entered values f =
        EnteredAs values f.identifier (field_entry w f (raw_for provided last f.identifier))

    EnteredAs-append :
        (vs us : List (Text × Value)) (identifier : Text) (entry : Option (Problem ⊎ Value))
        → EnteredAs vs identifier entry
        → EnteredAs (vs ++ us) identifier entry
    EnteredAs-append vs us identifier none h = tt
    EnteredAs-append vs us identifier (some (inl p)) h = tt
    EnteredAs-append vs us identifier (some (inr v)) h = Any-before _ vs us h

    Entered-all-append :
        (vs us : List (Text × Value)) (fs : List InputField)
        → All (Entered vs) fs
        → All (Entered (vs ++ us)) fs
    Entered-all-append vs us [] h = tt
    Entered-all-append vs us (f ∷ fs) h =
        (EnteredAs-append vs us f.identifier _ h.0, Entered-all-append vs us fs h.1)

    with_entry-Entered :
        (f : InputField) (fs : List InputField) (entry : Option (Problem ⊎ Value))
        (r : List FieldError × List (Text × Value))
        → All (Entered r.1) fs
        → EnteredAs (with_entry w f.identifier entry r).1 f.identifier entry
          × All (Entered (with_entry w f.identifier entry r).1) fs
    unfolding with_entry
    with_entry-Entered f fs none (errs, vs) h = (tt, h)
    with_entry-Entered f fs (some (inl p)) (errs, vs) h = (tt, h)
    with_entry-Entered f fs (some (inr v)) (errs, vs) h =
        (Any-last _ vs (f.identifier, v) (refl, refl), Entered-all-append vs _ fs h)

    apply-Entered : (fs : List InputField) → All (Entered (apply_fields w provided last fs).1) fs
    unfolding apply_fields
    apply-Entered [] = tt
    apply-Entered (f ∷ fs) =
        with_entry-Entered f fs (field_entry w f (raw_for provided last f.identifier))
          (apply_fields w provided last fs) (apply-Entered fs)

abbrev pub Declared : {F : Type 0} → List InputField → Text × Raw F → Type 0
Declared fs (k, raw) = is_declared k fs ≡ true

unknown-nil :
    {F : Type 0} (fs : List InputField) (provided : List (Text × Raw F))
    → (unknown_keys fs provided ≡ []) ↔ All (Declared fs) provided
unfolding unknown_keys
unknown-nil fs [] = (λ e. tt, λ h. refl)
unknown-nil fs ((k, raw) ∷ provided) = elim (Bool-cases (is_declared k fs)) [
  | inl there ↦
      rw there (λ e. (refl, (unknown-nil fs provided).0 e), λ h. (unknown-nil fs provided).1 h.1)
  | inr lacking ↦ rw lacking (λ e. cc, λ h. cc (h.0))
]

++-nil {ℓ} : {A : Type ℓ} (xs ys : List A) → (xs ++ ys ≡ []) ↔ ((xs ≡ []) × (ys ≡ []))
++-nil [] ys = (λ e. (refl, e), λ h. h.1)
++-nil (x ∷ xs) ys = (λ e. cc, λ h. cc (h.0))

module _ {F : Type 0} (w : Sources F) where
  refused :
      (errs : List FieldError) (values others : List (Text × Value))
      → or_errors w errs values ≡ inr others
      → errs ≡ []
  refused [] values others h = refl
  refused (e ∷ errs) values others h = cc

  accepted :
      (errs : List FieldError) (values : List (Text × Value))
      → errs ≡ []
      → or_errors w errs values ≡ inr values
  accepted [] values h = refl
  accepted (e ∷ errs) values h = cc

  -- For an extension that has fields, a configuration is made, each value of which is what a field of that name was
  -- coerced to, and which has the value of each field that was coerced, exactly if all that is provided is for a declared field, each field that has no value, provided or used last, is
  -- not required, and each value can be coerced.
  pub build_config_from_json_iff :
      (f : InputField) (more : List InputField) (provided last : List (Text × Raw F))
      → ((values : List (Text × Value)) × (build_config_from_json w (some (f ∷ more)) provided last
            ≡ inr values)
          × All (OfField w provided last (f ∷ more)) values
          × All (Entered w provided last values) (f ∷ more))
        ↔ (All (Declared (f ∷ more)) provided × All (FineAt w provided last) (f ∷ more))
  unfolding build_config_from_json
  build_config_from_json_iff f more provided last =
      let fs = f ∷ more in
      let applied = apply_fields w provided last fs in
      let unknown = unknown_keys fs provided in
      let both = ++-nil unknown applied.0 in
      (
        λ (values, e, of, entered).
            let none_wrong = both.0 (refused (unknown ++ applied.0) applied.1 values e) in
            (
              (unknown-nil fs provided).0 none_wrong.0,
              (apply-nil w provided last fs).0 none_wrong.1,
            ),
        λ h. (
          applied.1,
          accepted (unknown ++ applied.0) applied.1
              (both.1 ((unknown-nil fs provided).1 h.0, (apply-nil w provided last fs).1 h.1)),
          apply-OfField w provided last fs,
          apply-Entered w provided last fs,
        ),
      )
