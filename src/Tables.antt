-- ===== src/Tables.antt =====
-- The tables that the portal reads and writes: portal/lib/data/tables.
pub mod TableName
pub mod AppendOnly
pub mod UserConfig
pub mod UserPermissions
pub mod GwBilling
pub mod Users
