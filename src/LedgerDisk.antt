-- ===== src/LedgerDisk.antt =====
-- ledger_disk.go: the ledger on LevelDB.
pub mod Keys
pub mod Database
pub mod Queries
pub mod Connect
pub mod Disconnect
pub mod Tip
pub mod Settled
pub mod Undone
pub mod Branches
pub mod History
