-- ===== src/Storage.antt =====
-- Azure Table Storage as the portal uses it (portal/lib/data/table-client.ts hands out its clients).
pub mod Entity
pub mod Rows
pub mod Service
pub mod Laws
pub mod Partitions
pub mod Reads
pub mod Inverse
