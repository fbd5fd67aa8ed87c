-- ===== src/Tests.antt =====
-- The theorems of the library at concrete inputs.
mod Data
mod Storage
mod Indexes
mod Database
mod Columnar
