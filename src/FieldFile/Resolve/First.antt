-- ===== src/FieldFile/Resolve/First.antt =====
-- The match that `ResolveEntityField` picks (fieldfile/fieldfile.go).
use mathlib.Core.Option.{some-injective}
use nuzur_cli.Base.{
  ◌≡◌, true, false, Bool, List, [], ◌∷◌, ◌++◌, some, All, arith, ap, inl, inr, Bool-cases,
}
use nuzur_cli.Text.{Text}
use nuzur_cli.FieldFile.Resolve.{
  Entity, Field, resolved, resolve_entity_field, first_match, matches_entity, matches_field,
}

-- The element stands in the list and passes, and nothing before it does.
pub record IsFirst {A : Type 0} (p : A → Bool) (xs : List A) (x : A) : Type 0 where
  pub before : List A
  pub after : List A
  pub splits : xs ≡ before ++ (x ∷ after)
  pub passes : p x ≡ true
  pub skipped : All (λ y. p y ≡ false) before

module _ {A : Type 0} (p : A → Bool) where
  first_match-IsFirst : (xs : List A) (x : A) → first_match p xs ≡ some x → IsFirst p xs x
  unfolding first_match
  first_match-IsFirst [] x h = absurd (ground arith)
  first_match-IsFirst (y ∷ xs) x h = elim (Bool-cases (p y)) [
    | inl hit ↦ record {
      before = [];
      after = xs;
      splits = ap (λ (z : A). z ∷ xs) (some-injective _ _ (rw hit at h));
      passes = ground (arith, hit, h);
      skipped = tt;
    }
    | inr miss ↦
        let f = first_match-IsFirst xs x (rw miss at h) in
        record {
          before = y ∷ f.before;
          after = f.after;
          splits = ap (λ (zs : List A). y ∷ zs) f.splits;
          passes = f.passes;
          skipped = (miss, f.skipped);
        }
  ]

resolved-matches :
    (entities : List Entity) (entity_ref field_ref : Text) (e : Entity) (f : Field)
    → resolve_entity_field (some entities) entity_ref field_ref ≡ resolved e f
    → (first_match (matches_entity entity_ref) entities ≡ some e)
      × (first_match (matches_field field_ref) e.fields ≡ some f)
unfolding resolve_entity_field
resolved-matches entities entity_ref field_ref e f h = ground arith

-- When a reference resolves, the entity is the first whose uuid or identifier matches, and the
-- field is the first such one of that entity.
pub resolve_entity_field-IsFirst :
    (entities : List Entity) (entity_ref field_ref : Text) (e : Entity) (f : Field)
    → resolve_entity_field (some entities) entity_ref field_ref ≡ resolved e f
    → IsFirst (matches_entity entity_ref) entities e × IsFirst (matches_field field_ref) e.fields f
resolve_entity_field-IsFirst entities entity_ref field_ref e f h =
    let (a, b) = resolved-matches entities entity_ref field_ref e f h in
    (
      first_match-IsFirst (matches_entity entity_ref) entities e a,
      first_match-IsFirst (matches_field field_ref) e.fields f b,
    )
