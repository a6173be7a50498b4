-- ===== src/Db.antt =====
-- The rows of the PAE database (src/pae/db).
pub mod Models
