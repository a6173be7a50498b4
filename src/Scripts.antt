-- ===== src/Scripts.antt =====
-- The scripts that set Home Assistant up (ha/weather, ha/basement_tablet, ha/lora915).
pub mod Rows
pub mod Tablet
pub mod Deploy
pub mod Flow
pub mod Discovery
pub mod Lora
pub mod Topics
