-- ===== src/Agent/TxPool/Ledger.antt =====
-- The calls of the pool (agent/txpool.go) in any order, and what became of each transaction.
use nuzur_cli.Base.{
  ℕ, ◌+◌, ◌≡◌, ◌==◌, ◌++◌, [], ◌∷◌, arith, none, List, if◌then◌else◌, some, map, refl, not, select,
  Option-cases, ◌∙◌, inl, inr,
}
use nuzur_cli.Agent.TxPool.{
  TxEntry, TxPool, lookup, delete, add, pop, reap_idle, close_all, tx_of, touch, is_idle,
  new_tx_pool,
}
use nuzur_cli.Agent.TxPool.Once.{
  times, live, Unique, lookup-delete, delete_missing, delete-Unique, delete-times, touch-txs,
  touch-Unique, select-Unique, select-times,
}

-- The pool, the transactions added to it, and those that `Pop` gave out to be ended.
pub record Ledger : Type 0 where
  pub pool : TxPool
  pub added : List ℕ
  pub popped : List ℕ

-- One call. The id of a transaction is new.
pub data Call : Ledger → Ledger → Type 0 where
  adds :
      {l : Ledger} (id tx now : ℕ)
      → lookup id l.pool.txs ≡ none
      → Call l (record l { pool = add id tx now l.pool; added = tx ∷ l.added })
  finds : {l : Ledger} (id : ℕ) → Call l l
  touches :
      {l : Ledger} (id now : ℕ)
      → Call l (record l { pool = record (l.pool) { txs = touch id now l.pool.txs } })
  pops :
      {l : Ledger} (id tx : ℕ)
      → (pop id l.pool).1 ≡ some tx
      → Call l (record l { pool = (pop id l.pool).0; popped = tx ∷ l.popped })
  misses :
      {l : Ledger} (id : ℕ)
      → (pop id l.pool).1 ≡ none
      → Call l (record l { pool = (pop id l.pool).0 })
  reaps : {l : Ledger} (now : ℕ) → Call l (record l { pool = reap_idle now l.pool })
  closes : {l : Ledger} → Call l (record l { pool = close_all l.pool })

abbrev pub fresh : Ledger
fresh = record { pool = new_tx_pool; added = []; popped = [] }

pub data Calls : Ledger → Type 0 where
  opened : Calls fresh
  called : {l m : Ledger} → Calls l → Call l m → Calls m

pub times_append : (t : ℕ) (xs ys : List ℕ) → times t (xs ++ ys) ≡ times t xs + times t ys
times_append t [] ys = omega arith
times_append t (x ∷ xs) ys = ground (arith, times_append t xs ys)

-- Each transaction added is live, was given out by `Pop`, or was rolled back.
abbrev pub Balanced : Ledger → Type 0
Balanced l =
    Unique l.pool.txs
    × ((t : ℕ)
        → times t l.added ≡ times t (live l.pool) + times t l.popped + times t l.pool.rolled_back)

popped_txs :
    (id : ℕ) (e : TxEntry) (p : TxPool)
    → lookup id p.txs ≡ some e
    → (pop id p).0 ≡ record p { txs = delete id p.txs }
unfolding pop
popped_txs id e p found = rw (pop, found) refl

pop-Balanced :
    (id tx : ℕ) (p : TxPool)
    → Unique p.txs
    → (pop id p).1 ≡ some tx
    → Unique (pop id p).0.txs
      × ((pop id p).0.rolled_back ≡ p.rolled_back)
      × ((t : ℕ) → times t (live p) ≡ (if tx == t then 1 else 0) + times t (live (pop id p).0))
unfolding pop
pop-Balanced id tx p u h = elim (Option-cases (lookup id p.txs)) [
  | inl absent ↦ cc
  | inr (e, found) ↦ (
    rw (popped_txs id e p found) (delete-Unique id p.txs u),
    rw (popped_txs id e p found) refl,
    λ t. rw (popped_txs id e p found) (ground (arith, found, h, delete-times t id p.txs e u found)),
  )
]

missed_pop : (id : ℕ) (p : TxPool) → (pop id p).1 ≡ none → (pop id p).0 ≡ p
unfolding pop
missed_pop id p h = ground arith

Call-Balanced : {l m : Ledger} → Call l m → Balanced l → Balanced m
unfolding add reap_idle close_all
Call-Balanced {l} (adds id tx now new) (u, b) = (
  (lookup-delete id id l.pool.txs ∙ ground arith, delete-Unique id l.pool.txs u),
  λ t. rw (delete_missing id l.pool.txs new) (ground (arith, b t)),
)
Call-Balanced (finds id) b = b
Call-Balanced {l} (touches id now) (u, b) =
    (touch-Unique id now l.pool.txs u, λ t. rw (touch-txs id now l.pool.txs) (b t))
Call-Balanced {l} (pops id tx h) (u, b) =
    let (u2, r, w) = pop-Balanced id tx l.pool u h in (u2, λ t. ground (arith, b t, w t, r))
Call-Balanced {l} (misses id h) b = rw (missed_pop id l.pool h) b
Call-Balanced {l} (reaps now) (u, b) = (
  select-Unique (λ x. not (is_idle now x)) l.pool.txs u,
  λ t. ground (
    arith,
    b t,
    select-times (is_idle now) t l.pool.txs,
    times_append t l.pool.rolled_back (map tx_of (select (is_idle now) l.pool.txs)),
  ),
)
Call-Balanced {l} closes (u, b) =
    (tt, λ t. ground (arith, b t, times_append t l.pool.rolled_back (live l.pool)))

-- Whatever calls were made of a new pool, with each id new when it is given: a transaction was added
-- as often as it is live, was given out by `Pop` and was rolled back by the pool, together.
pub Calls-Balanced :
    {l : Ledger} (t : ℕ)
    → Calls l
    → times t l.added ≡ times t (live l.pool) + times t l.popped + times t l.pool.rolled_back
Calls-Balanced t r = (all_Balanced r).1 t
  where
    all_Balanced : {l : Ledger} → Calls l → Balanced l
    all_Balanced opened = (tt, λ t. refl)
    all_Balanced (called r c) = Call-Balanced c (all_Balanced r)
