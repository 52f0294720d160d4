-- ===== src/Socks5.antt =====
-- src/socks5.c: the connections of the proxy. State has the connection and what its handlers see,
-- Connect the attempts to reach the destination, Negotiate the greeting and the authentication,
-- Request the request and its reply, Copy the relay, Table the state machine and the selector's
-- handlers, Life what creates and frees a connection.
pub mod State
pub mod Connect
pub mod Negotiate
pub mod Request
pub mod Copy
pub mod Table
pub mod Sound
pub mod Sockets
pub mod Attempts
pub mod Pump
pub mod Reply
pub mod Keeps
pub mod Done
pub mod Serves
pub mod Life
pub mod Accept
pub mod Engine
pub mod Reach
pub mod Access
pub mod HalfClose
mod Tests
mod RelayTests
