-- ===== src/Migrator.antt =====
-- The migration (src/main/main.cpp). Loops over pages run on fuel; they throw `out_of_fuel` without
-- enough of it.
pub mod Retry
pub mod Log
pub mod Fetches
pub mod Returns
pub mod Batch
pub mod StepOne
pub mod StepTwo
pub mod Migration
pub mod Sample
pub mod LedgerSample
mod Tests
