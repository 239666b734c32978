-- ===== src/Tests.antt =====
-- The theorems at concrete inputs, and runs of the code.
mod Fixtures
mod Keys
mod Stores
mod Services
mod Remote
mod Requests
mod Handlers
mod Hosting
mod Clients
mod Commands
mod Moves
mod Networks
