-- ===== src/Miner.antt =====
-- The pattern miner (src/pae/miner).
pub mod Stats
pub mod Ratio
pub mod Sun
pub mod Tod
pub mod Pairs
pub mod Types
pub mod Reconcile
pub mod Upsert
pub mod Run
