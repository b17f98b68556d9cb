-- ===== src/Agent/Connections/Tests.antt =====
-- Concrete registries and pools, and instances of the theorems about them.
use nuzur_cli.Base.{
  ◌≡◌, refl, ℕ, false, List, [], ◌∷◌, none, some, inr, All, Option, ◌≢◌, inl, true,
}
use nuzur_cli.Text.{Text, codes, equal, fields, is_space, join, has_prefix}
use nuzur_cli.Agent.Connections.{
  Entry, Disk, holds, Failures, load, load_file, migrate, kept_entry, moved_entry, finish_load,
  resolve_saved, resolve, cons_resolved, save, save_leaving, get_dsn, find_by_name, Option, inl,
}
use nuzur_cli.Agent.Connections.Migrated.{Loaded, load-Loaded}
use nuzur_cli.Agent.Connections.Unique.{Distinct, Call, adds, removes, after, after-Distinct}
use nuzur_cli.Agent.TxPool.Once.{times}
use nuzur_cli.Agent.DbPool.{
  Calls, opens, installs, start, Reach, here, next, cached, resolve_get, resolve_cached,
  resolve_registered, opening, open_local_db, install, install_over,
}
use nuzur_cli.Agent.DbPool.Given.{Reach-given}
use nuzur_cli.Agent.Connections.{find_by_uuid}
use nuzur_cli.Agent.Dsn.{swap_pg_database, swap_fields, names_database}
use nuzur_cli.Agent.Probes.{PlanTools, PlanRequest, schema_plan, PgPlan}
use nuzur_cli.Agent.Probes.Guarded.{schema_plan-Agree, Agree}

abbrev shop : Entry
shop = record {
  uuid = codes "u1";
  name = codes "Shop";
  driver = codes "postgres";
  db_type = 2;
  dsn = [];
  default_schema = [];
  legacy_dsn = codes "secret";
}

abbrev fine : Failures
fine = record {
  put_error = λ u. none;
  get_error = λ u. none;
  delete_error = λ u. none;
  save_leaves = none;
}

abbrev old_disk : Disk
old_disk = record { file = holds (shop ∷ []); keychain = [] }

abbrev moved_shop : Entry
moved_shop = record shop { dsn = codes "secret"; legacy_dsn = [] }

load-moved : load fine old_disk ≡ (
  inr (moved_shop ∷ []),
  record {
    file = holds (record shop { legacy_dsn = [] } ∷ []);
    keychain = (codes "u1", codes "secret") ∷ [];
  },
)
unfolding load load_file migrate kept_entry moved_entry finish_load resolve_saved resolve
    cons_resolved save save_leaving get_dsn
load-moved = refl

load-Loaded_example : Loaded fine old_disk.file (load fine old_disk)
load-Loaded_example = load-Loaded fine old_disk

abbrev calls : List Call
calls =
    removes fine (codes "shop") ∷ adds fine (codes "u2") (record shop { name = codes "SHOP" }) ∷ []

after-Distinct_example : Distinct (after calls (shop ∷ [], [])).0
unfolding find_by_name
after-Distinct_example = after-Distinct calls (shop ∷ []) [] (refl, tt)

abbrev no_error : Text → Text → Option Text
no_error driver dsn = none

-- Two calls for one connection open a handle each; the second one to install returns the first one's.
abbrev raced : Calls
raced = record {
  pool = record (start (moved_shop ∷ []) none).pool {
    opened = 2;
    cache = (codes "u1", 1) ∷ [];
    closed = 0 ∷ [];
  };
  pending = [];
  given = (codes "u1", 1) ∷ (codes "u1", 1) ∷ [];
}

raced-Reach : Reach no_error (start (moved_shop ∷ []) none) raced
unfolding resolve_get resolve_cached resolve_registered opening open_local_db find_by_uuid cached
    equal install install_over
raced-Reach =
    next
      (next (next (next here (opens (codes "u1") refl)) (opens (codes "u1") refl))
        (installs [] ((codes "u1", 0) ∷ []) (codes "u1") 1 refl))
      (installs [] [] (codes "u1") 0 refl)

Reach-given_example :
    All
      (λ ((u, h) : Text × ℕ).
        (cached u raced.pool.cache ≡ some h) × (times h raced.pool.closed ≡ 0))
      raced.given
Reach-given_example = Reach-given no_error (moved_shop ∷ []) none raced-Reach

swap_pg_database-replaced :
    swap_pg_database (codes "host=h dbname=a") (codes "tmp") ≡ codes "host=h dbname=tmp"
unfolding swap_pg_database fields is_space swap_fields names_database has_prefix join
swap_pg_database-replaced = refl

abbrev tools : PlanTools
tools = record {
  quote = λ t. t;
  parse_url = λ u. inr u;
  compute = λ b s e n l. inr (codes "ALTER");
}

abbrev empty_side : PlanRequest
empty_side = record {
  conn = codes "u1";
  schema = [];
  existing_create_sql = [];
  new_create_sql = codes "CREATE";
  use_live_schema_source = false;
}

-- It gives another plan than the tools wherever they are not to be asked.
abbrev strays : PgPlan
strays b [] e n l = inl (codes "no schema")
strays b (c ∷ s) [] n false = inl (codes "no source")
strays b (c ∷ s) [] n true = inr (codes "ALTER")
strays b (c ∷ s) (x ∷ e) n l = inr (codes "ALTER")

strays-Agree : Agree tools.compute strays
strays-Agree b [] e n l named given = absurd (named refl)
strays-Agree b (c ∷ s) [] n false named (inl live) = cc
strays-Agree b (c ∷ s) [] n false named (inr filled) = absurd (filled refl)
strays-Agree b (c ∷ s) [] n true named given = refl
strays-Agree b (c ∷ s) (x ∷ e) n l named given = refl

strays-elsewhere :
    tools.compute [] (codes "public") [] [] false ≢ strays [] (codes "public") [] [] false
strays-elsewhere same = cc

schema_plan-Agree_example :
    schema_plan tools (moved_shop ∷ []) empty_side
    ≡ schema_plan (record tools { compute = strays }) (moved_shop ∷ []) empty_side
schema_plan-Agree_example = schema_plan-Agree tools strays (moved_shop ∷ []) empty_side strays-Agree
