-- ===== src/Worker.antt =====
-- The worker (src/pae/worker).
pub mod Scheduler
