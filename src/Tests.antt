-- ===== src/Tests.antt =====
-- Concrete runs of the theorems.
mod Samples
mod Drafts
mod Proposing
mod Lifecycles
mod Shadowing
mod Ingesting
mod Clients
mod Mining
mod Miners
mod Running
mod Scripting
