-- ===== src/Agent/TxPool.antt =====
-- agent/txpool.go. A transaction and its id are numbers; the clock is an argument, in nanoseconds,
-- and the id that `uuid.NewV4` gives is one too. Each method holds the mutex while it reads or changes the
-- map, so these are a sequence of steps; `Get` touches the entry after it has let the mutex go, which
-- is a step of its own (`touch`).
pub mod Once
pub mod Ledger
pub mod Idle
use nuzur_cli.Base.{
  ℕ, ◌+◌, ◌*◌, ◌^◌, Bool, true, false, not, List, [], ◌∷◌, ◌++◌, map, Option, none, some, ◌==◌, ltb,
  if◌then◌else◌, select,
}

pub record TxEntry : Type 0 where
  pub tx : ℕ
  pub last_used : ℕ

-- The map, and the transactions rolled back so far.
pub record TxPool : Type 0 where
  pub txs : List (ℕ × TxEntry)
  pub rolled_back : List ℕ

abbrev pub tx_idle_timeout : ℕ
tx_idle_timeout = 60 * 10 ^ 9

unfoldable pub lookup : ℕ → List (ℕ × TxEntry) → Option TxEntry
lookup id [] = none
lookup id ((k, e) ∷ m) = if k == id then some e else lookup id m

unfoldable pub delete : ℕ → List (ℕ × TxEntry) → List (ℕ × TxEntry)
delete id [] = []
delete id ((k, e) ∷ m) = let rest = delete id m in if k == id then rest else (k, e) ∷ rest

abbrev pub new_tx_pool : TxPool
new_tx_pool = record { txs = []; rolled_back = [] }

-- An assignment to a key replaces what was there.
unfoldable pub add : ℕ → ℕ → ℕ → TxPool → TxPool
unfolding delete
add id tx now p = record p { txs = (id, record { tx = tx; last_used = now }) ∷ delete id p.txs }

unfoldable pub touch : ℕ → ℕ → List (ℕ × TxEntry) → List (ℕ × TxEntry)
touch id now [] = []
touch id now ((k, e) ∷ m) =
    let rest = touch id now m in
    if k == id then (k, record e { last_used = now }) ∷ rest else (k, e) ∷ rest

-- What `Get` does under the mutex.
unfoldable pub find : ℕ → TxPool → Option ℕ
unfolding lookup
find id p = elim (lookup id p.txs) [ none ↦ none | some e ↦ some e.tx ]

-- `Get`, when no other call comes between its two steps.
unfoldable pub get : ℕ → ℕ → TxPool → TxPool × Option ℕ
unfolding touch find
get id now p = (record p { txs = touch id now p.txs }, find id p)

unfoldable pub pop : ℕ → TxPool → TxPool × Option ℕ
unfolding lookup delete
pop id p = elim (lookup id p.txs) [
  | none ↦ (p, none)
  | some e ↦ (record p { txs = delete id p.txs }, some e.tx)
]

-- `e.lastUsed < now - txIdleTimeout`
abbrev pub is_idle : ℕ → ℕ × TxEntry → Bool
is_idle now (k, e) = ltb (e.last_used + tx_idle_timeout) now

abbrev pub tx_of : ℕ × TxEntry → ℕ
tx_of (k, e) = e.tx

unfoldable pub reap_idle : ℕ → TxPool → TxPool
reap_idle now p = record {
  txs = select (λ x. not (is_idle now x)) p.txs;
  rolled_back = p.rolled_back ++ map tx_of (select (is_idle now) p.txs);
}

unfoldable pub close_all : TxPool → TxPool
close_all p = record { txs = []; rolled_back = p.rolled_back ++ map tx_of p.txs }
