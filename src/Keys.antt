-- ===== src/Keys.antt =====
-- API keys: portal/lib/services/keys-table.ts and the name check of
-- portal/lib/pure/key-name-validation.ts.
pub mod Store
pub mod Access
pub mod Lifecycle
pub mod Rotation
pub mod Journal
pub mod Index
pub mod Deletion
pub mod Listing
pub mod Resolve
pub mod Quota
pub mod Names
