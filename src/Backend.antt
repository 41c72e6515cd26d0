-- ===== src/Backend.antt =====
-- The database backend as the migrator uses it (src/backend/BackendInterface.h,
-- BackendInterface.cpp, CassandraBackend.cpp).
pub mod Reads
pub mod Page
pub mod Serves
pub mod Ledger
pub mod Writes
pub mod WriteQueue
pub mod Paging
pub mod Commit
pub mod LedgerWrites
pub mod OnlineDelete
