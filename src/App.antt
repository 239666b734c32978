-- ===== src/App.antt =====
-- internal/app: the rules of the service over the registry.
pub mod Dates
pub mod Sockets
pub mod Service
pub mod Verify
