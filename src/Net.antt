-- ===== src/Net.antt =====
-- What the handlers of the program see of the sockets and of the selector: the result of a call on
-- a socket that does not block, and the interest that a descriptor is registered with.
use tpe2026c1_socks.Prelude.{Bool, Bytes, IsBytes, false, length, true, ℕ, ◌≤◌}

-- `recv(fd, p, n, 0)`: the bytes received, none of them at the end of the stream, or -1 with
-- `EAGAIN` or `EWOULDBLOCK`, or -1 with another error.
pub data RecvResult : Type 0 where
  received : Bytes → RecvResult
  recv_again recv_failed : RecvResult

-- `send(fd, p, n, MSG_NOSIGNAL)`: how many bytes were sent, or -1 in the same two ways.
pub data SendResult : Type 0 where
  sent_bytes : ℕ → SendResult
  send_again send_failed : SendResult

-- What the kernel promises: no more bytes than the room that was offered, each an octet.
abbrev pub RecvFits : ℕ → RecvResult → Type 0
RecvFits room (received bs) = (length bs ≤ room) × IsBytes bs
RecvFits room _ = Unit

-- No more bytes sent than were offered.
abbrev pub SendFits : ℕ → SendResult → Type 0
SendFits n (sent_bytes w) = w ≤ n
SendFits n _ = Unit

-- `fd_interest`, the two bits apart.
pub record Interest : Type 0 where
  pub op_read : Bool
  pub op_write : Bool

abbrev pub op_noop : Interest
op_noop = record { op_read = false; op_write = false }

abbrev pub only_read : Interest
only_read = record { op_read = true; op_write = false }

abbrev pub only_write : Interest
only_write = record { op_read = false; op_write = true }
