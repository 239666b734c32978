-- ===== src/Acme.antt =====
-- internal/acme: what the signed requests of a client rest on.
pub mod Nonces
pub mod Jws
