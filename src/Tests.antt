-- ===== src/Tests.antt =====
-- The theorems at concrete inputs.
pub mod Store
pub mod Tables
pub mod Breaker
pub mod Writes
pub mod Log
pub mod Replicas
pub mod Transactions
pub mod Blocks
