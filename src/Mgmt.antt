-- ===== src/Mgmt.antt =====
-- src/mgmt.c: the server of the management protocol.
pub mod Wire
pub mod Bytes
pub mod ListUsers
pub mod Process
pub mod Conn
pub mod Parse
mod Tests
