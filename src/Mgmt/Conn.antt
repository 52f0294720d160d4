-- ===== src/Mgmt/Conn.antt =====
-- The connection of src/mgmt.c and its handlers. A connection is kept with what the selector holds
-- for its descriptor: the interest, and whether it was unregistered, and so closed. A handler also
-- takes and returns the globals.
pub mod Serve
pub mod Safe
pub mod Handlers
pub mod Reach
use tpe2026c1_socks.Buffer.{
  Buffer, buffer_can_read, buffer_init, buffer_read_adv, buffer_read_ptr, buffer_reset,
  buffer_write, buffer_write_adv, buffer_write_ptr,
}
use tpe2026c1_socks.Mgmt.Parse.{
  MgmtReq, Rc, consumed, need_more, parse_auth, parse_request, refused, unknown,
}
use tpe2026c1_socks.Mgmt.Process.{Shared, process_request}
use tpe2026c1_socks.Mgmt.Wire.{resp_simple}
use tpe2026c1_socks.Net.{
  received, Interest, RecvResult, SendResult, only_read, only_write, recv_again, recv_failed,
  send_again, send_failed, sent_bytes,
}
use tpe2026c1_socks.Prelude.{
  Bool, Bytes, Option, false, if◌then◌else◌, length, not, pos, replicate, some, true, ℕ, ◌&&◌, ◌==◌,
  ◌>>=◌,
}
use tpe2026c1_socks.Prelude.Memory.{store, window}
use tpe2026c1_socks.Prelude.Text.{str_eq}
use tpe2026c1_socks.Smp.{smp_auth_failed, smp_auth_ok, smp_unknown_command, smp_version}

pub data MgmtState : Type 0 where
  mgmt_auth mgmt_auth_reply mgmt_request mgmt_response : MgmtState

-- `struct mgmt_conn`, then the selector's part.
pub record MgmtConn : Type 0 where
  pub state : MgmtState
  pub auth_ok : Bool
  pub close_after_write : Bool
  pub rbuf : Buffer
  pub wbuf : Buffer
  pub interest : Interest
  pub closed : Bool

abbrev pub mgmt_rbuf : ℕ
mgmt_rbuf = 4096

abbrev pub mgmt_wbuf : ℕ
mgmt_wbuf = 65536

-- `mgmt_passive_accept` from `calloc` on.
unfoldable pub mgmt_new : MgmtConn
mgmt_new = record {
  state = mgmt_auth;
  auth_ok = false;
  close_after_write = false;
  rbuf = buffer_init mgmt_rbuf (replicate mgmt_rbuf 0);
  wbuf = buffer_init mgmt_wbuf (replicate mgmt_wbuf 0);
  interest = only_read;
  closed = false;
}

-- `mgmt_done`, and `mgmt_close`, which the selector then calls.
unfoldable pub mgmt_done : MgmtConn → MgmtConn
mgmt_done c = record c { closed = true }

-- The branch of `mgmt_try_process` in MGMT_AUTH, with the results of `parse_auth`.
unfoldable pub take_auth : MgmtConn → Shared → Rc × Bytes × Bytes → Option (MgmtConn × Shared)
unfolding mgmt_done
take_auth c g (need_more, user, pass) = some (c, g)
take_auth c g (consumed n, user, pass) = do
  rb ← buffer_read_adv c.rbuf (pos n)
  let ok = str_eq user g.config.admin_user && str_eq pass g.config.admin_pass
  w1 ← buffer_write (buffer_reset c.wbuf) smp_version
  w2 ← buffer_write w1 (if ok then smp_auth_ok else smp_auth_failed)
  some (
    record c {
      rbuf = rb;
      auth_ok = ok;
      wbuf = w2;
      close_after_write = not ok;
      state = mgmt_auth_reply;
      interest = only_write;
    },
    g,
  )
take_auth c g (rc, user, pass) = some (mgmt_done c, g)

-- The branch of `mgmt_try_process` in MGMT_REQUEST, with the results of `parse_request`.
unfoldable pub take_request : MgmtConn → Shared → Rc × MgmtReq → Option (MgmtConn × Shared)
unfolding mgmt_done
take_request c g (need_more, r) = some (c, g)
take_request c g (refused, r) = some (mgmt_done (record c { wbuf = buffer_reset c.wbuf }), g)
take_request c g (unknown, r) = do
  rb ← buffer_read_adv c.rbuf (pos 2)
  w1 ← resp_simple r.cmd smp_unknown_command (buffer_reset c.wbuf)
  some (record c { rbuf = rb; wbuf = w1; state = mgmt_response; interest = only_write }, g)
take_request c g (consumed n, r) = do
  rb ← buffer_read_adv c.rbuf (pos n)
  (g', w1) ← process_request g (buffer_reset c.wbuf) r
  some (record c { rbuf = rb; wbuf = w1; state = mgmt_response; interest = only_write }, g')

-- Each branch of the loop of `mgmt_try_process` returns, so it makes one round.
unfoldable pub try_in : MgmtState → MgmtConn → Shared → Bytes → Option (MgmtConn × Shared)
unfolding take_auth take_request
try_in mgmt_auth c g p = take_auth c g (parse_auth p)
try_in mgmt_request c g p = take_request c g (parse_request p)
try_in _ c g p = some (c, g)

unfoldable pub mgmt_try_process : MgmtConn → Shared → Option (MgmtConn × Shared)
unfolding try_in
mgmt_try_process c g = do
  (off, avail) ← buffer_read_ptr c.rbuf
  try_in c.state c g (window c.rbuf.storage off avail)

-- What `mgmt_read` does with a result of `recv` into the space at `off`; it is called at most once,
-- and its result is an argument.
unfoldable pub take_input : MgmtConn → Shared → ℕ → RecvResult → Option (MgmtConn × Shared)
unfolding mgmt_try_process mgmt_done
take_input c g off recv_again = some (c, g)
take_input c g off recv_failed = some (mgmt_done c, g)
take_input c g off (received bs) = if length bs == 0 then some (mgmt_done c, g) else do
  d ← store c.rbuf.storage off bs
  rb ← buffer_write_adv (record (c.rbuf) { storage = d }) (pos (length bs))
  mgmt_try_process (record c { rbuf = rb }) g

unfoldable pub mgmt_read : MgmtConn → Shared → RecvResult → Option (MgmtConn × Shared)
unfolding take_input mgmt_done
mgmt_read c g result = do
  (off, space) ← buffer_write_ptr c.rbuf
  if space == 0 then some (mgmt_done c, g) else take_input c g off result

-- The end of `mgmt_write`, behind its `buffer_read_adv`.
unfoldable pub after_send : MgmtConn → Shared → Option (MgmtConn × Shared)
unfolding mgmt_try_process mgmt_done
after_send c g =
    if buffer_can_read c.wbuf
    then some (c, g)
    else if c.close_after_write
    then some (mgmt_done c, g)
    else mgmt_try_process (record c { state = mgmt_request; interest = only_read }) g

unfoldable pub mgmt_write : MgmtConn → Shared → SendResult → Option (MgmtConn × Shared)
unfolding after_send mgmt_done
mgmt_write c g send_again = do (off, n) ← buffer_read_ptr c.wbuf; some (c, g)
mgmt_write c g send_failed = do (off, n) ← buffer_read_ptr c.wbuf; some (mgmt_done c, g)
mgmt_write c g (sent_bytes w) = do
  (off, n) ← buffer_read_ptr c.wbuf
  wb ← buffer_read_adv c.wbuf (pos w)
  after_send (record c { wbuf = wb }) g
