-- ===== src/Agent/DbPool/Given.antt =====
-- The handles of the pool in every interleaving of the calls of `Get`.
use nuzur_cli.Agent.Connections.{Entry}
use nuzur_cli.Base.{
  ℕ, ◌+◌, ◌≤◌, ltb, ◌≡◌, ap, List, [], ◌∷◌, ◌++◌, some, if◌then◌else◌, map, All, none, Option, ◌==◌,
  arith, refl, Bool-cases, inl, inr,
}
use nuzur_cli.Text.{Text, equal}
use nuzur_cli.Text.Equal.{equal→eq, equal_refl}
use nuzur_cli.Agent.TxPool.Once.{times}
use nuzur_cli.Agent.DbPool.{
  cached, handle_of, Calls, install, opening, resolve_get, open_local_db, fall_back, DbPool,
  use_cached, install_over, resolve_cached, resolve_registered, Step, hits, opens, installs, Reach,
  here, next, start,
}

abbrev pub held : List (Text × ℕ) → List ℕ
held = map handle_of

-- Each handle that was opened is in the cache, with a call in flight or closed, once; and a handle that was given out for a
-- connection is the one in the cache for it.
pub record Sound (c : Calls) : Type 0 where
  pub once :
      (h : ℕ)
      → times h (held c.pool.cache) + times h (held c.pending) + times h c.pool.closed
        ≡ (if ltb h c.pool.opened then 1 else 0)
  pub current : All (λ ((u, h) : Text × ℕ). cached u c.pool.cache ≡ some h) c.given

abbrev Current : List (Text × ℕ) → List (Text × ℕ) → Type 0
Current cache given = All (λ ((u, h) : Text × ℕ). cached u cache ≡ some h) given

opening-ne :
    (open_error : Text → Text → Option Text) (e : Entry) (h : ℕ)
    → opening open_error e ≡ use_cached h
    → ⊥
unfolding opening open_local_db
opening-ne open_error e h q = ground (arith, q)

registered-ne :
    (open_error : Text → Text → Option Text) (fallback : Option ℕ) (e : Option Entry) (h : ℕ)
    → resolve_registered open_error fallback e ≡ use_cached h
    → ⊥
unfolding resolve_registered fall_back
registered-ne open_error fallback (some e) h q = opening-ne open_error e h q
registered-ne open_error (some f) none h q = cc
registered-ne open_error none none h q = cc

resolve-cached :
    (open_error : Text → Text → Option Text) (uuid : Text) (p : DbPool) (found : Option ℕ) (h : ℕ)
    → resolve_cached open_error uuid p found ≡ use_cached h
    → found ≡ some h
unfolding resolve_cached
resolve-cached open_error uuid p (some k) h q = cc
resolve-cached open_error uuid p none h q = absurd (registered-ne open_error p.fallback _ h q)

held-append :
    (h : ℕ) (xs ys : List (Text × ℕ))
    → times h (held (xs ++ ys)) ≡ times h (held xs) + times h (held ys)
held-append h [] ys = omega arith
held-append h (x ∷ xs) ys = omega (arith, held-append h xs ys)

-- A new binding hides none that is there.
cached-kept :
    (uuid : Text) (n : ℕ) (cache : List (Text × ℕ)) (u : Text) (h : ℕ)
    → cached uuid cache ≡ none
    → cached u cache ≡ some h
    → cached u ((uuid, n) ∷ cache) ≡ some h
unfolding cached
cached-kept uuid n cache u h free there = elim (Bool-cases (equal uuid u)) [
  | inl same ↦ absurd (ground (arith, ap (λ (t : Text). cached t cache) (equal→eq uuid u same)))
  | inr other ↦ rw other there
]

Current-kept :
    (uuid : Text) (n : ℕ) (cache given : List (Text × ℕ))
    → cached uuid cache ≡ none
    → Current cache given
    → Current ((uuid, n) ∷ cache) given
Current-kept uuid n cache [] free c = tt
Current-kept uuid n cache ((u, h) ∷ given) free c =
    (cached-kept uuid n cache u h free c.0, Current-kept uuid n cache given free c.1)

cached-new :
    (uuid : Text) (n : ℕ) (cache : List (Text × ℕ)) → cached uuid ((uuid, n) ∷ cache) ≡ some n
unfolding cached
cached-new uuid n cache = rw (equal_refl uuid) refl

install-once :
    (found : Option ℕ) (uuid : Text) (h : ℕ) (p : DbPool) (k : ℕ)
    → times k (held (install_over found uuid h p).0.cache)
        + times k (install_over found uuid h p).0.closed
      ≡ (if h == k then 1 else 0) + times k (held p.cache) + times k p.closed
unfolding install_over
install-once (some existing) uuid h p k = omega arith
install-once none uuid h p k = omega arith

install-opened :
    (found : Option ℕ) (uuid : Text) (h : ℕ) (p : DbPool)
    → (install_over found uuid h p).0.opened ≡ p.opened
unfolding install_over
install-opened (some existing) uuid h p = refl
install-opened none uuid h p = refl

install-Current :
    (found : Option ℕ) (uuid : Text) (h : ℕ) (p : DbPool) (given : List (Text × ℕ))
    → cached uuid p.cache ≡ found
    → Current p.cache given
    → Current
        (install_over found uuid h p).0.cache
        ((uuid, (install_over found uuid h p).1) ∷ given)
unfolding install_over
install-Current (some existing) uuid h p given e c = (e, c)
install-Current none uuid h p given e c =
    (cached-new uuid h p.cache, Current-kept uuid h p.cache given e c)

Step-Sound :
    (open_error : Text → Text → Option Text) {c d : Calls} → Step open_error c d → Sound c → Sound d
unfolding resolve_get install
Step-Sound open_error {c} (hits uuid h q) s = record {
  once = s.once;
  current = (resolve-cached open_error uuid c.pool _ h q, s.current);
}
Step-Sound open_error {c} (opens uuid q) s = record {
  once = λ h. ground (arith, s.once h);
  current = s.current;
}
Step-Sound open_error {c} (installs before behind uuid h e) s =
    let found = cached uuid c.pool.cache in
    record {
      once = λ k. omega (
        arith,
        s.once k,
        install-once found uuid h c.pool k,
        held-append k before behind,
        held-append k before ((uuid, h) ∷ behind),
        ap (λ (l : List (Text × ℕ)). times k (held l)) e,
        ap {B = ℕ} (λ (n : ℕ). if ltb k n then 1 else 0) (install-opened found uuid h c.pool),
      );
      current = install-Current found uuid h c.pool c.given refl s.current;
    }

start-Sound : (registry : List Entry) (fallback : Option ℕ) → Sound (start registry fallback)
start-Sound registry fallback = record { once = λ h. ground arith; current = tt }

Reach-Sound :
    (open_error : Text → Text → Option Text) (registry : List Entry) (fallback : Option ℕ)
    {c : Calls}
    → Reach open_error (start registry fallback) c
    → Sound c
Reach-Sound open_error registry fallback here = start-Sound registry fallback
Reach-Sound open_error registry fallback (next r st) =
    Step-Sound open_error st (Reach-Sound open_error registry fallback r)

cached-held :
    (u : Text) (h : ℕ) (cache : List (Text × ℕ))
    → cached u cache ≡ some h
    → 1 ≤ times h (held cache)
unfolding cached
cached-held u h [] e = cc
cached-held u h ((v, k) ∷ cache) e = ground (arith, cached-held u h cache)

not_closed :
    (c : Calls)
    → Sound c
    → (given : List (Text × ℕ)) → Current c.pool.cache given
    → All
        (λ ((u, h) : Text × ℕ). (cached u c.pool.cache ≡ some h) × (times h c.pool.closed ≡ 0))
        given
not_closed c s [] h = tt
not_closed c s ((u, k) ∷ given) h =
    ((h.0, ground (arith, s.once k, cached-held u k c.pool.cache h.0)), not_closed c s given h.1)

-- In every interleaving of calls of `Get`: a handle that was given out for a registered connection is the
-- one in the cache for it, so all calls for it were given the same, and it was not closed.
pub Reach-given :
    (open_error : Text → Text → Option Text) (registry : List Entry) (fallback : Option ℕ)
    {c : Calls}
    → Reach open_error (start registry fallback) c
    → All
        (λ ((u, h) : Text × ℕ). (cached u c.pool.cache ≡ some h) × (times h c.pool.closed ≡ 0))
        c.given
Reach-given open_error registry fallback {c} r =
    let s = Reach-Sound open_error registry fallback r in not_closed c s c.given s.current
