-- ===== src/ExtensionRun/JwtRequirements/Named.antt =====
-- Which element of a list the loops over names find.
use nuzur_cli.Text.Equal.{equal→eq, equal_refl}
use mathlib.Core.Option.{some-injective}
use nuzur_cli.Base.{
  ◌≡◌, refl, ◌↔◌, true, false, List, [], ◌∷◌, Option, none, some, ◌⊎◌, inl, inr, Bool-cases, All,
  ◌∙◌,
}
use nuzur_cli.Text.{Text, equal}
use nuzur_cli.ExtensionRun.JwtRequirements.{with_name, first_named}

pub equal-cases : (s t : Text) → ((equal s t ≡ true) × (s ≡ t)) ⊎ ((equal s t ≡ false) × ¬ (s ≡ t))
equal-cases s t = elim (Bool-cases (equal s t)) [
  | inl same ↦ inl (same, equal→eq s t same)
  | inr other ↦ inr (other, λ e. cc (equal_refl s))
]

module _ {A : Type 0} (name : A → Text) where
  -- The first element of a list that has a name.
  abbrev pub IsFirstWith : Text → List A → A → Type 0
  IsFirstWith id [] x = ⊥
  IsFirstWith id (y ∷ ys) x = ((name y ≡ id) × (y ≡ x)) ⊎ (¬ (name y ≡ id) × IsFirstWith id ys x)

  -- The first element with the first of the names that some element has.
  abbrev pub IsFirstNamed : List Text → List A → A → Type 0
  IsFirstNamed [] xs x = ⊥
  IsFirstNamed (id ∷ ids) xs x =
      IsFirstWith id xs x ⊎ (All (λ y. ¬ (name y ≡ id)) xs × IsFirstNamed ids xs x)

  with_name-first :
      (id : Text) (xs : List A) (x : A) → (with_name name id xs ≡ some x) ↔ IsFirstWith id xs x
  unfolding with_name
  with_name-first id [] x = (λ e. cc, λ h. absurd h)
  with_name-first id (y ∷ ys) x = elim (equal-cases (name y) id) [
    | inl (here, e) ↦ rw here (
      λ h. inl (e, some-injective _ _ h),
      λ h. elim h [ inl (f, g) ↦ cc | inr (n, g) ↦ absurd (n e) ],
    )
    | inr (gone, n) ↦ rw gone (
      λ h. inr (n, (with_name-first id ys x).0 h),
      λ h. elim h [ inl (f, g) ↦ absurd (n f) | inr (m, g) ↦ (with_name-first id ys x).1 g ],
    )
  ]

  with_name-none :
      (id : Text) (xs : List A) → with_name name id xs ≡ none → All (λ y. ¬ (name y ≡ id)) xs
  unfolding with_name
  with_name-none id [] h = tt
  with_name-none id (y ∷ ys) h = elim (equal-cases (name y) id) [
    | inl (here, e) ↦ cc (rw here at h)
    | inr (gone, n) ↦ (n, with_name-none id ys (rw gone at h))
  ]

  with_name-all :
      (id : Text) (xs : List A) → All (λ y. ¬ (name y ≡ id)) xs → with_name name id xs ≡ none
  unfolding with_name
  with_name-all id [] h = refl
  with_name-all id (y ∷ ys) h = elim (equal-cases (name y) id) [
    | inl (here, e) ↦ absurd (h.0 e)
    | inr (gone, n) ↦ rw gone (with_name-all id ys h.1)
  ]

  or_first :
      (id : Text) (ids : List Text) (xs : List A) (x : A) (found : Option A)
      → with_name name id xs ≡ found
      → ((first_named name ids xs ≡ some x) ↔ IsFirstNamed ids xs x)
      → (first_named name (id ∷ ids) xs ≡ some x) ↔ IsFirstNamed (id ∷ ids) xs x
  unfolding first_named
  or_first id ids xs x (some y) e later =
      rw (e, first_named)
        (
          λ h. inl ((with_name-first id xs x).0 (e ∙ h)),
          λ h. elim h [
            | inl f ↦ cc ((with_name-first id xs x).1 f)
            | inr g ↦ cc (with_name-all id xs g.0)
          ],
        )
  or_first id ids xs x none e later =
      rw (e, first_named)
        (
          λ h. inr (with_name-none id xs e, later.0 h),
          λ h. elim h [ inl f ↦ cc ((with_name-first id xs x).1 f) | inr g ↦ later.1 g.1 ],
        )

  pub first_named-first :
      (ids : List Text) (xs : List A) (x : A)
      → (first_named name ids xs ≡ some x) ↔ IsFirstNamed ids xs x
  unfolding first_named
  first_named-first [] xs x = (λ e. cc, λ h. absurd h)
  first_named-first (id ∷ ids) xs x = or_first id ids xs x _ refl (first_named-first ids xs x)
