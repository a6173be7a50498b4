-- ===== src/Proposer/Schema.antt =====
-- The automation subset that the language model may author (src/pae/proposer/schema.py).
pub mod Clock
pub mod Automation
