-- ===== src/Ha.antt =====
-- The Home Assistant clients (src/pae/ha).
pub mod Client
pub mod Rest
