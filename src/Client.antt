-- ===== src/Client.antt =====
-- client/src: the client.
pub mod Store
pub mod Fetch
pub mod Example
pub mod Tests
pub mod RequestTests
pub mod Http
pub mod Commands
pub mod Show
pub mod Install
