-- ===== src/Agent/Tests.antt =====
-- Short runs: instances of the theorems about the pools of the daemon.
use nuzur_cli.Base.{◌≡◌, ◌+◌, some, [], ◌∷◌, refl}
use nuzur_cli.Agent.Semaphore.{Daemon}
use nuzur_cli.Agent.TxPool.{TxPool, pop, add, reap_idle, lookup, delete}
use nuzur_cli.Agent.TxPool.Once.{times, live}
use nuzur_cli.Agent.TxPool.Ledger.{Ledger, Calls, opened, called, adds, pops, reaps, Calls-Balanced}

abbrev busy : Daemon
busy = record { semaphore = some (record { taken = 1; capacity = 2 }); holders = 1; refused = 0 }

abbrev one_tx : TxPool
one_tx = record { txs = (7, record { tx = 70; last_used = 5 }) ∷ []; rolled_back = [] }

-- A transaction is added and popped, a second one is added and reaped.
abbrev after : Ledger
after = record {
  pool = record { txs = []; rolled_back = 80 ∷ [] };
  added = 80 ∷ 70 ∷ [];
  popped = 70 ∷ [];
}

after-Calls : Calls after
unfolding add pop reap_idle lookup delete
after-Calls =
    called (called (called (called opened (adds 7 70 5 refl)) (pops 7 70 refl)) (adds 8 80 6 refl))
      (reaps 70000000000)

Calls-Balanced_example :
    times 80 after.added
    ≡ times 80 (live after.pool) + times 80 after.popped + times 80 after.pool.rolled_back
Calls-Balanced_example = Calls-Balanced 80 after-Calls
