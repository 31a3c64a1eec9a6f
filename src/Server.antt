-- ===== src/Server.antt =====
-- The coordination server (server/src): its database, its sessions and its HTTP interface.
pub mod Db
pub mod Session
pub mod Api
pub mod Endpoints
pub mod World
pub mod Commands
pub mod Initialize
pub mod Serve
pub mod Example
pub mod Tests
pub mod RequestTests
pub mod StartTests
pub mod WorldTests
pub mod CommandTests
