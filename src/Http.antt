-- ===== src/Http.antt =====
-- internal/transport/httpapi: the handlers of the server.
pub mod Server
pub mod Guards
pub mod Client
pub mod Admin
pub mod Management
