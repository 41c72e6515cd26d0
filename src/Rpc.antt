-- ===== src/Rpc.antt =====
-- Parts of the server that answer requests (src/rpc).
pub mod Counters
pub mod WorkQueue
mod Tests
