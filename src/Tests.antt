-- ===== src/Tests.antt =====
-- A deployment in memory, and the theorems at concrete inputs.
pub mod Memory
mod Usage
mod Tables
mod Keys
mod Webhook
mod Jobs
mod Auth
mod Api
mod Export
mod View
mod Flame
mod Users
mod Upload
