-- ===== src/Auth.antt =====
-- Signing in: portal/lib/auth.
pub mod RateLimit
pub mod Setup
pub mod Session
pub mod Email
pub mod Transport
pub mod NextAuth
pub mod Seed
