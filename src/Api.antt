-- ===== src/Api.antt =====
-- The HTTP handlers: portal/app/api, and their helpers in portal/lib/api.
pub mod Response
pub mod Webhook
pub mod Route
pub mod Keys
pub mod Jobs
pub mod Settings
