-- ===== src/Socks5/State.antt =====
-- The connection of src/socks5.c, with what the selector, the kernel and the resolver hold for it.
use tpe2026c1_socks.Buffer.{
  Buffer, buffer_read_adv, buffer_read_ptr, buffer_write_adv, buffer_write_ptr,
}
use tpe2026c1_socks.Mgmt.Process.{Shared}
use tpe2026c1_socks.Net.{
  Interest, RecvResult, SendResult, recv_again, recv_failed, send_again, send_failed, sent_bytes,
  received,
}
use tpe2026c1_socks.Parsers.Auth.{AuthParser}
use tpe2026c1_socks.Parsers.Hello.{HelloParser}
use tpe2026c1_socks.Parsers.Request.{RequestParser}
use tpe2026c1_socks.Pop3.{Sniffer}
use tpe2026c1_socks.Prelude.{
  Bool, Bytes, List, Option, false, if◌then◌else◌, length, none, pos, some, true, ℕ, ◌==◌, ◌>>=◌,
}
use tpe2026c1_socks.Prelude.Memory.{store, window}
use tpe2026c1_socks.Users.{User}

-- The values of `errno` that the program tells apart.
pub data Errno : Type 0 where
  no_error econnrefused enetunreach enetdown ehostunreach ehostdown etimedout other_error : Errno

-- A `struct sockaddr_storage` of one of the two families: the bytes of the address, and the port.
pub data Address : Type 0 where
  sockaddr_in sockaddr_in6 : Bytes → ℕ → Address

-- An entry of the list that `getaddrinfo` returns.
pub data AddrInfo : Type 0 where
  resolved : Address → AddrInfo
  other_family : AddrInfo

-- What becomes of one candidate: `socket` or `selector_fd_set_nio` fails, `connect` succeeds, goes on
-- or fails. All but the first hold the descriptor of `socket`; the first two of `connect` also whether
-- `selector_register` took it.
pub data Attempt : Type 0 where
  no_socket : Errno → Attempt
  not_nio : ℕ → Attempt
  connected in_progress : ℕ → Bool → Attempt
  connect_failed : ℕ → Errno → Attempt

-- A line of the log: the user, the client's address, the destination, and the reply or the
-- credentials.
pub data LogEntry : Type 0 where
  access_entry : Bytes → Address → Bytes → ℕ → ℕ → LogEntry
  pop3_entry : Bytes → Address → Bytes → ℕ → Bytes → Bytes → LogEntry

-- What the calls that a handler makes outside the program return: the call of `recv`, the i-th
-- call of `send` offered n bytes, the attempt to reach the i-th candidate, `SO_ERROR` or the `errno`
-- of `getsockopt`, `getsockname`, `inet_ntop`, whether the resolver's thread started, and the list
-- that it found.
pub record Kernel : Type 0 where
  pub recv : RecvResult
  pub send : ℕ → ℕ → SendResult
  pub attempt : ℕ → Address → Attempt
  pub so_error : Errno
  pub sockname : Option Address
  pub ntop : Address → Bytes
  pub thread_starts : Bool
  pub addrinfo : Option (List AddrInfo)

-- `struct socks5`. A descriptor is none where the program keeps -1. `addrs` holds the `naddrs`
-- candidates, and `username` and `dest_host` the C strings of their arrays.
pub record Socks5 : Type 0 where
  pub client_addr : Address
  pub origin_fd : Option ℕ
  pub hello : HelloParser
  pub auth : AuthParser
  pub request : RequestParser
  pub method : ℕ
  pub auth_ok : Bool
  pub username : Bytes
  pub addrs : List Address
  pub addr_idx : ℕ
  pub resolving : Bool
  pub dest_host : Bytes
  pub dest_port : ℕ
  pub reply : ℕ
  pub client_eof : Bool
  pub origin_eof : Bool
  pub client_wr_shut : Bool
  pub origin_wr_shut : Bool
  pub sniff_pop3 : Bool
  pub pop3 : Sniffer
  pub read_buffer : Buffer
  pub write_buffer : Buffer
  pub references : ℕ

-- All that a handler reads and writes: the connection, the globals, the interests that the two
-- descriptors are registered with (none where one is not registered), the bytes that the two
-- sockets took, the log, whether authentication was required when the greeting was answered, the
-- table of users when credentials were answered, the sockets for the origin that are open, and
-- whether the connection was freed.
pub record World : Type 0 where
  pub s : Socks5
  pub g : Shared
  pub client_interest : Option Interest
  pub origin_interest : Option Interest
  pub to_client : Bytes
  pub to_origin : Bytes
  pub log : List LogEntry
  pub required : Bool
  pub checked : List User
  pub origins : List ℕ
  pub destroyed : Bool

abbrev pub max_addrs : ℕ
max_addrs = 16

-- `enum socks5_state`
abbrev pub hello_read_state : ℕ
hello_read_state = 0

abbrev pub hello_write_state : ℕ
hello_write_state = 1

abbrev pub auth_read_state : ℕ
auth_read_state = 2

abbrev pub auth_write_state : ℕ
auth_write_state = 3

abbrev pub request_read_state : ℕ
request_read_state = 4

abbrev pub request_resolv_state : ℕ
request_resolv_state = 5

abbrev pub request_connecting_state : ℕ
request_connecting_state = 6

abbrev pub request_write_state : ℕ
request_write_state = 7

abbrev pub copy_state : ℕ
copy_state = 8

abbrev pub done_state : ℕ
done_state = 9

abbrev pub error_state : ℕ
error_state = 10

abbrev pub rep_success : ℕ
rep_success = 0x00

abbrev pub rep_general_failure : ℕ
rep_general_failure = 0x01

abbrev pub rep_network_unreachable : ℕ
rep_network_unreachable = 0x03

abbrev pub rep_host_unreachable : ℕ
rep_host_unreachable = 0x04

abbrev pub rep_connection_refused : ℕ
rep_connection_refused = 0x05

abbrev pub rep_ttl_expired : ℕ
rep_ttl_expired = 0x06

abbrev pub rep_command_not_supported : ℕ
rep_command_not_supported = 0x07

abbrev pub rep_atyp_not_supported : ℕ
rep_atyp_not_supported = 0x08

unfoldable pub errno_to_reply : Errno → ℕ
errno_to_reply no_error = rep_success
errno_to_reply econnrefused = rep_connection_refused
errno_to_reply enetunreach = rep_network_unreachable
errno_to_reply enetdown = rep_network_unreachable
errno_to_reply ehostunreach = rep_host_unreachable
errno_to_reply ehostdown = rep_host_unreachable
errno_to_reply etimedout = rep_ttl_expired
errno_to_reply other_error = rep_general_failure

-- `selector_set_interest` on a descriptor: the interest it is then registered with, and whether the
-- call succeeds, which is where it was registered.
unfoldable pub set_interest : Option Interest → Interest → Option Interest × Bool
set_interest none i = (none, false)
set_interest (some _) i = (some i, true)

-- What a handler makes of `recv` into a buffer: nothing has come, the stream ended or failed, or the
-- buffer holds more.
pub data Input : Type 0 where
  no_input input_ended : Input
  input : Buffer → Input

unfoldable pub taken_in : Buffer → ℕ → RecvResult → Option Input
taken_in b off recv_again = some no_input
taken_in b off recv_failed = some input_ended
taken_in b off (received bs) = if length bs == 0 then some input_ended else do
  d ← store b.storage off bs
  b' ← buffer_write_adv (record b { storage = d }) (pos (length bs))
  some (input b')

-- The lines of `hello_read`, `auth_read` and `request_read` up to `buffer_write_adv`.
unfoldable pub take_in : Buffer → RecvResult → Option Input
unfolding taken_in
take_in b r = do (off, space) ← buffer_write_ptr b; taken_in b off r

-- What a handler makes of one `send` of a buffer: nothing went, it failed, or these bytes went.
pub data Output : Type 0 where
  no_output output_failed : Output
  output : Buffer → Bytes → Output

unfoldable pub sent_out : Buffer → ℕ → SendResult → Option Output
sent_out b off send_again = some no_output
sent_out b off send_failed = some output_failed
sent_out b off (sent_bytes n) = do
  b' ← buffer_read_adv b (pos n)
  some (output b' (window b.storage off n))

-- The lines of `hello_write`, `auth_write` and `request_write` up to `buffer_read_adv`.
unfoldable pub send_out : Buffer → (ℕ → ℕ → SendResult) → Option Output
unfolding sent_out
send_out b send = do (off, n) ← buffer_read_ptr b; sent_out b off (send 0 n)
