-- ===== src/Socks5/Keeps.antt =====
-- The callbacks of src/socks5.c keep the invariant of the connection's state.
pub mod Connecting
pub mod Requesting
pub mod Replying
pub mod Negotiating
pub mod Copying
pub mod Relaying
pub mod Authenticating
