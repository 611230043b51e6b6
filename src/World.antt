-- ===== src/World.antt =====
-- What the portal runs in: the services that it calls, their state, and actions that may throw.
pub mod Redis
pub mod Stripe
pub mod Time
pub mod Actions
