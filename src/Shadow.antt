-- ===== src/Shadow.antt =====
-- Shadow evaluation (src/pae/shadow/service.py).
pub mod Evaluate
pub mod Run
