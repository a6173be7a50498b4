-- ===== src/Proposer.antt =====
-- From mined patterns to proposals (src/pae/proposer).
pub mod Gates
pub mod Group
pub mod Grouping
pub mod Schema
pub mod Validate
pub mod Repo
pub mod Service
pub mod Lifecycle
pub mod Run
pub mod Pages
