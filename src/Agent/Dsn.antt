-- ===== src/Agent/Dsn.antt =====
-- The source names of lib/pq in agent/handler_pg_schema_plan.go. `pq.ParseURL` is an argument.
pub mod Swapped
use nuzur_cli.Base.{
  ℕ, Bool, true, false, ◌||◌, List, [], ◌∷◌, ◌++◌, ◌⊎◌, inl, inr, if◌then◌else◌, drop,
}
use nuzur_cli.Text.{Text, codes, has_prefix, fields, join}

unfoldable pub pg_keyword_dsn : (Text → Text ⊎ Text) → Text → Text ⊎ Text
unfolding has_prefix
pg_keyword_dsn parse_url dsn =
    if has_prefix dsn (codes "postgres://") || has_prefix dsn (codes "postgresql://")
    then parse_url dsn
    else inr dsn

unfoldable pub names_database : Text → Bool
unfolding has_prefix
names_database f = has_prefix f (codes "dbname=")

unfoldable pub database_of : List Text → Text
unfolding names_database
database_of [] = []
database_of (f ∷ fs) = let rest = database_of fs in if names_database f then drop 7 f else rest

unfoldable pub pg_database_name : Text → Text
unfolding database_of fields
pg_database_name keyword_dsn = database_of (fields keyword_dsn)

abbrev pub database_field : Text → Text
database_field target = codes "dbname=" ++ target

-- The loop of `swapPGDatabase`, with whether a field was replaced.
unfoldable pub swap_fields : Text → Bool → List Text → List Text
unfolding names_database
swap_fields target true [] = []
swap_fields target false [] = database_field target ∷ []
swap_fields target replaced (f ∷ fs) =
    let hit = names_database f in
    (if hit then database_field target else f)
    ∷ swap_fields target (if hit then true else replaced) fs

unfoldable pub swap_pg_database : Text → Text → Text
unfolding swap_fields fields join
swap_pg_database keyword_dsn target =
    join (swap_fields target false (fields keyword_dsn)) (codes " ")
