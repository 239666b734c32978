-- ===== src/Client.antt =====
-- internal/client: the host of a client, and its calls of the proxy.
pub mod Detect
pub mod Messages
pub mod Acme
pub mod AccountKey
pub mod Install
