-- ===== src/Tests.antt =====
-- Tests, and the theorems of the library at concrete inputs.
mod Rating
mod Binding
mod Config
mod Downstream
mod Release
mod Ingest
mod Registry
mod Migrations
mod Gates
mod Mr
mod Ledger
