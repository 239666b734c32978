-- ===== src/Registry.antt =====
-- internal/registry: the registry, its operations, and the file that it is kept in.
pub mod Keyed
pub mod Operations
pub mod Store
pub mod Api
pub mod Migration
