-- ===== src/Subscription.antt =====
-- internal/subscription: the domain types, the statuses, the keys and the verify response.
pub mod Status
pub mod Key
pub mod Model
pub mod Response
