-- ===== src/System.antt =====
-- The backend as one system: the services, the routes and the poller over one database.
pub mod Sound
pub mod Datasets
pub mod Rows
pub mod ModelRows
pub mod Removal
pub mod Status
pub mod Services
pub mod Models
pub mod Commits
pub mod Runs
pub mod Events
