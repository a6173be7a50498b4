-- ===== src/Ingest.antt =====
-- The ingester (src/pae/ingest).
pub mod Attribution
pub mod Writer
pub mod Context
pub mod Filters
pub mod Service
pub mod Frames
pub mod Registry
