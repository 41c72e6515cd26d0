-- ===== src/Etl.antt =====
-- The ETL: the helpers of src/etl/ETLHelpers.h, and in NextLedger and Pipeline the writes of a ledger
-- and the threads of src/etl/ReportingETL.cpp.
pub mod ThreadSafeQueue
pub mod ValidatedLedgers
pub mod Markers
pub mod NextLedger
pub mod Pipeline
mod Tests
