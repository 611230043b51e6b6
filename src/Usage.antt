-- ===== src/Usage.antt =====
-- Usage in billable units, the estimate of the bill and the billing period: portal/lib/pure.
pub mod Format
pub mod Print
pub mod Ago
pub mod Calc
pub mod Period
