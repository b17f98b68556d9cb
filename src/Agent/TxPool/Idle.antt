-- ===== src/Agent/TxPool/Idle.antt =====
-- The reaper (`reapIdle` of agent/txpool.go).
use nuzur_cli.Base.{
  ℕ, ◌+◌, ◌≡◌, ◌≤◌, ◌↔◌, [], ◌∷◌, arith, none, List, some, not, select, Bool, if◌then◌else◌,
}
use nuzur_cli.Agent.TxPool.{TxEntry, TxPool, lookup, reap_idle, find, tx_idle_timeout, is_idle}
use nuzur_cli.Agent.TxPool.Once.{Unique, select-Unique}
use nuzur_cli.Agent.TxPool.Once

lookup-select :
    (keep : ℕ × TxEntry → Bool) (k : ℕ) (m : List (ℕ × TxEntry)) (e : TxEntry)
    → Unique m
    → lookup k m ≡ some e
    → lookup k (select keep m) ≡ (if keep (k, e) then some e else none)
unfolding lookup
lookup-select keep k [] e u h = cc
lookup-select keep k ((j, x) ∷ m) e u h =
    ground (arith, lookup-select keep k m e u.1, Once.select-lookup keep k m)

-- In a pool where each id is bound once, a transaction is found after the reaper ran exactly when
-- its last use is no more than 60 seconds old.
pub reap_idle-find :
    (id now : ℕ) (e : TxEntry) (p : TxPool)
    → Unique p.txs
    → lookup id p.txs ≡ some e
    → (find id (reap_idle now p) ≡ some e.tx) ↔ (now ≤ e.last_used + tx_idle_timeout)
unfolding find reap_idle
reap_idle-find id now e p u h =
    ground (arith, lookup-select (λ x. not (is_idle now x)) id p.txs e u h)
