-- ===== src/Agent/DbPool.antt =====
-- agent/dbpool.go. A handle of a registered connection is the number of those opened before it. `Get` holds
-- the mutex twice, so it is two steps, with the opening between them, and other calls may come in between.
pub mod Given
use nuzur_cli.Base.{
  ℕ, suc, ◌+◌, ◌≡◌, Bool, true, false, List, [], ◌∷◌, ◌++◌, Option, none, some, ◌⊎◌, inl, inr,
  if◌then◌else◌, is_nil, map,
}
use nuzur_cli.Text.{Text, equal}
use nuzur_cli.Agent.Connections.{Entry, find_by_uuid}

pub record DbPool : Type 0 where
  pub registry : List Entry
  pub fallback : Option ℕ
  pub cache : List (Text × ℕ)
  -- How many handles were opened, and those that were closed.
  pub opened : ℕ
  pub closed : List ℕ
  pub fallback_closed : Bool

abbrev pub new_db_pool : List Entry → Option ℕ → DbPool
new_db_pool registry fallback = record {
  registry = registry;
  fallback = fallback;
  cache = [];
  opened = 0;
  closed = [];
  fallback_closed = false;
}

unfoldable pub cached : Text → List (Text × ℕ) → Option ℕ
unfolding equal
cached uuid [] = none
cached uuid ((u, h) ∷ cache) = let rest = cached uuid cache in if equal u uuid then some h else rest

-- `sqlx.Open` with its error; an empty source name is no handle and no error.
unfoldable pub open_local_db : (Text → Text → Option Text) → Text → Text → Option Text ⊎ Bool
open_local_db open_error driver dsn =
    if is_nil dsn
    then inr false
    else elim (open_error driver dsn) [ some e ↦ inl (some e) | none ↦ inr true ]

-- What `Get` does before it takes the mutex again: return a handle, an error, or open a new handle.
pub data Resolution : Type 0 where
  use_cached use_fallback : ℕ → Resolution
  open_new : Resolution
  no_dsn open_failed empty_dsn not_registered : Resolution

unfoldable pub opening : (Text → Text → Option Text) → Entry → Resolution
unfolding open_local_db
opening open_error e =
    if is_nil e.dsn then no_dsn else elim (open_local_db open_error e.driver e.dsn) [
      | inl err ↦ open_failed
      | inr false ↦ empty_dsn
      | inr true ↦ open_new
    ]

unfoldable pub fall_back : Option ℕ → Resolution
fall_back (some h) = use_fallback h
fall_back none = not_registered

unfoldable pub resolve_registered :
    (Text → Text → Option Text) → Option ℕ → Option Entry → Resolution
unfolding opening fall_back
resolve_registered open_error fallback (some e) = opening open_error e
resolve_registered open_error fallback none = fall_back fallback

unfoldable pub resolve_cached : (Text → Text → Option Text) → Text → DbPool → Option ℕ → Resolution
unfolding resolve_registered find_by_uuid
resolve_cached open_error uuid p (some h) = use_cached h
resolve_cached open_error uuid p none =
    resolve_registered open_error p.fallback (find_by_uuid uuid p.registry)

unfoldable pub resolve_get : (Text → Text → Option Text) → Text → DbPool → Resolution
unfolding cached resolve_cached
resolve_get open_error uuid p = resolve_cached open_error uuid p (cached uuid p.cache)

unfoldable pub install_over : Option ℕ → Text → ℕ → DbPool → DbPool × ℕ
install_over (some existing) uuid h p = (record p { closed = h ∷ p.closed }, existing)
install_over none uuid h p = (record p { cache = (uuid, h) ∷ p.cache }, h)

-- The second time that `Get` holds the mutex, with the handle that it opened: a handle that came in between is returned, and the
-- own one closed.
unfoldable pub install : Text → ℕ → DbPool → DbPool × ℕ
unfolding cached install_over
install uuid h p = install_over (cached uuid p.cache) uuid h p

abbrev pub handle_of : Text × ℕ → ℕ
handle_of (u, h) = h

unfoldable pub close : DbPool → DbPool
close p = record p {
  cache = [];
  closed = map handle_of p.cache ++ p.closed;
  fallback = none;
  fallback_closed = elim p.fallback [ none ↦ p.fallback_closed | some h ↦ true ];
}

-- The calls in flight that have opened a handle, and the handles that were given out.
pub record Calls : Type 0 where
  pub pool : DbPool
  pub pending : List (Text × ℕ)
  pub given : List (Text × ℕ)

pub data Step (open_error : Text → Text → Option Text) : Calls → Calls → Type 0 where
  hits :
      {c : Calls} (uuid : Text) (h : ℕ)
      → resolve_get open_error uuid c.pool ≡ use_cached h
      → Step open_error c (record c { given = (uuid, h) ∷ c.given })
  opens :
      {c : Calls} (uuid : Text)
      → resolve_get open_error uuid c.pool ≡ open_new
      → Step open_error c (record c {
        pool = record (c.pool) { opened = suc (c.pool.opened) };
        pending = (uuid, c.pool.opened) ∷ c.pending;
      })
  installs :
      {c : Calls} (before behind : List (Text × ℕ)) (uuid : Text) (h : ℕ)
      → c.pending ≡ before ++ ((uuid, h) ∷ behind)
      → Step open_error c (record c {
        pool = (install uuid h c.pool).0;
        pending = before ++ behind;
        given = (uuid, (install uuid h c.pool).1) ∷ c.given;
      })

abbrev pub start : List Entry → Option ℕ → Calls
start registry fallback = record { pool = new_db_pool registry fallback; pending = []; given = [] }

pub data Reach (open_error : Text → Text → Option Text) (c : Calls) : Calls → Type 0 where
  here : Reach open_error c c
  next : {d e : Calls} → Reach open_error c d → Step open_error d e → Reach open_error c e
