-- ===== src/Llm.antt =====
-- The language model's client (src/pae/llm).
pub mod Client
pub mod Request
pub mod Prompt
