-- ===== src/Services.antt =====
-- The billing stores behind the interface of portal/lib/services/index.ts.
pub mod Billing
pub mod Cache
pub mod TableStore
pub mod StripeStore
pub mod AuthAdapter
