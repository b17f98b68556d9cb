-- ===== src/Agent/Dsn/Swapped.antt =====
-- What a source name holds after its database was swapped.
use nuzur_cli.Base.{
  ◌≡◌, refl, ap, ◌∙◌, Bool, true, false, not, List, [], ◌∷◌, Bool-cases, inl, inr, All, select,
}
use nuzur_cli.Text.{Text, fields, is_space, has_prefix}
use nuzur_cli.Text.Fields.{NoSpace, IsWord, fields-IsWord, fields-join}
use nuzur_cli.Agent.Dsn.{
  names_database, database_of, database_field, swap_fields, swap_pg_database, pg_database_name,
}

field-IsWord : (target : Text) → NoSpace target → IsWord (database_field target)
unfolding is_space
field-IsWord target h = (refl, (refl, (refl, (refl, (refl, (refl, (refl, h)))))))

swap-IsWord :
    (target : Text) (replaced : Bool) (fs : List Text)
    → NoSpace target
    → All IsWord fs
    → All IsWord (swap_fields target replaced fs)
unfolding swap_fields
swap-IsWord target true [] h words = tt
swap-IsWord target false [] h words = (field-IsWord target h, tt)
swap-IsWord target replaced (f ∷ fs) h words = elim (Bool-cases (names_database f)) [
  | inl hit ↦ rw hit (field-IsWord target h, swap-IsWord target true fs h words.1)
  | inr other ↦ rw other (words.0, swap-IsWord target replaced fs h words.1)
]

-- The settings other than the database.
abbrev pub settings : List Text → List Text
settings = select (λ f. not (names_database f))

database_of-named :
    (target : Text) (fs : List Text) → database_of (database_field target ∷ fs) ≡ target
unfolding database_of names_database has_prefix
database_of-named target fs = refl

settings-named :
    (target : Text) (fs : List Text) → settings (database_field target ∷ fs) ≡ settings fs
unfolding names_database has_prefix
settings-named target fs = refl

database_of-swap :
    (target : Text) (fs : List Text) → database_of (swap_fields target false fs) ≡ target
unfolding swap_fields database_of
database_of-swap target [] = database_of-named target []
database_of-swap target (f ∷ fs) = elim (Bool-cases (names_database f)) [
  | inl hit ↦ rw hit (database_of-named target (swap_fields target true fs))
  | inr other ↦ rw other (rw other (database_of-swap target fs))
]

settings-swap :
    (target : Text) (replaced : Bool) (fs : List Text)
    → settings (swap_fields target replaced fs) ≡ settings fs
unfolding swap_fields
settings-swap target true [] = refl
settings-swap target false [] = settings-named target []
settings-swap target replaced (f ∷ fs) = elim (Bool-cases (names_database f)) [
  | inl hit ↦
      rw hit (settings-named target (swap_fields target true fs) ∙ settings-swap target true fs)
  | inr other ↦ rw other (rw other (ap (◌∷◌ f) (settings-swap target replaced fs)))
]

fields-swap :
    (dsn target : Text)
    → NoSpace target
    → fields (swap_pg_database dsn target) ≡ swap_fields target false (fields dsn)
unfolding swap_pg_database
fields-swap dsn target h =
    fields-join (swap_fields target false (fields dsn))
      (swap-IsWord target false (fields dsn) h (fields-IsWord dsn))

-- For a target without white space: the source name that `swapPGDatabase` makes names the target as its database, also where
-- none was named before or several were, and it has the same other settings in the same order.
pub pg_database_name-swap :
    (dsn target : Text)
    → NoSpace target
    → (pg_database_name (swap_pg_database dsn target) ≡ target)
      × (settings (fields (swap_pg_database dsn target)) ≡ settings (fields dsn))
unfolding pg_database_name
pg_database_name-swap dsn target h = (
  ap database_of (fields-swap dsn target h) ∙ database_of-swap target (fields dsn),
  ap settings (fields-swap dsn target h) ∙ settings-swap target false (fields dsn),
)
