-- ===== src/Jobs.antt =====
-- The jobs of a user: the index in GwUserJobs, how a job is shown, and what is added up of jobs.
pub mod Table
pub mod Row
pub mod Usage
pub mod Pages
pub mod Admin
pub mod UserList
pub mod Overview
pub mod Synthetic
pub mod Stats
