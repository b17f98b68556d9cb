-- ===== src/Agent.antt =====
-- The package agent: the daemon of the local agent, its pools, connections and handlers.
pub mod Semaphore
pub mod TxPool
pub mod Daemon
pub mod Rows
pub mod Connections
pub mod DbPool
pub mod Dsn
pub mod Probes
pub mod Requests
pub mod Tests
