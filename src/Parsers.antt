-- ===== src/Parsers.antt =====
-- src/socks5_parsers.c: the incremental parsers of the three SOCKS5 messages that a client sends.
pub mod Run
pub mod Collect
pub mod Hello
pub mod Auth
pub mod Request
pub mod Stream
mod Tests
