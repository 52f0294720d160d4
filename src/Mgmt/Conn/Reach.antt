-- ===== src/Mgmt/Conn/Reach.antt =====
-- A connection of src/mgmt.c from `mgmt_passive_accept` on, served by the selector, while other
-- connections change the globals between its events.
use tpe2026c1_socks.Users.Table
use tpe2026c1_socks.Mgmt.Conn.Serve.{IsValid}
use tpe2026c1_socks.Mgmt.Conn.{mgmt_read, mgmt_write, MgmtConn, mgmt_new}
use tpe2026c1_socks.Mgmt.Conn.Safe.{Goes}
use tpe2026c1_socks.Mgmt.Process.{Shared}
use tpe2026c1_socks.Net.{RecvFits, RecvResult, SendFits, SendResult}
use tpe2026c1_socks.Prelude.{Option, false, some, some_inj, sym, true, ◌-◌, ◌∙◌, ◌≡◌, subst}
use tpe2026c1_socks.Mgmt.Conn.Handlers.{mgmt_new-IsValid, mgmt_read_lem, mgmt_write_lem}

-- What the selector calls a handler for, with the result of its `recv` or `send`.
pub data Ready : Type 0 where
  readable : RecvResult → Ready
  writable : SendResult → Ready

unfoldable pub handle : MgmtConn → Shared → Ready → Option (MgmtConn × Shared)
handle c g (readable r) = mgmt_read c g r
handle c g (writable r) = mgmt_write c g r

-- The selector calls the handler that the interest names, and the kernel keeps its promise.
abbrev pub Enabled : MgmtConn → Ready → Type 0
Enabled c (readable r) = (c.interest.op_read ≡ true) × RecvFits (c.rbuf.limit - c.rbuf.write) r
Enabled c (writable r) = (c.interest.op_write ≡ true) × SendFits (c.wbuf.write - c.wbuf.read) r

pub data Reaches : MgmtConn → Shared → Type 0 where
  accepted : {g : Shared} → Table.IsValid g.users → Reaches mgmt_new g
  meanwhile :
      {c : MgmtConn} {g : Shared} (g' : Shared)
      → Table.IsValid g'.users
      → Reaches c g
      → Reaches c g'
  served :
      {c c' : MgmtConn} {g g' : Shared} (e : Ready)
      → c.closed ≡ false
      → Enabled c e
      → handle c g e ≡ some (c', g')
      → Reaches c g
      → Reaches c' g'

handle-Goes :
    (c : MgmtConn) (g : Shared) (e : Ready) → IsValid c g → Enabled c e → Goes c g (handle c g e)
unfolding handle
handle-Goes c g (readable r) v h = mgmt_read_lem c g r v h.1
handle-Goes c g (writable r) v h = mgmt_write_lem c g r v h.0 h.1

other_globals :
    {c : MgmtConn} {g : Shared} (g' : Shared) → Table.IsValid g'.users → IsValid c g → IsValid c g'
other_globals g' u v = record {
  rbuf = v.rbuf;
  wbuf = v.wbuf;
  rlimit = v.rlimit;
  wlimit = v.wlimit;
  users = u;
  phase = v.phase;
}

Reaches-IsValid : {c : MgmtConn} {g : Shared} → Reaches c g → IsValid c g
Reaches-IsValid (accepted {g} u) = mgmt_new-IsValid g u
Reaches-IsValid (meanwhile g' u r) = other_globals g' u (Reaches-IsValid r)
Reaches-IsValid (served {c} {c'} {g} {g'} e running h q r) =
    let (d, f, same, v, _) = handle-Goes c g e (Reaches-IsValid r) h in
    let both : (d, f) ≡ (c', g') = some_inj (sym same ∙ q) in subst (λ t. IsValid t.0 t.1) both v

-- On every connection that is reached, the next handler that the selector may call does not abort;
-- it leaves a connection with sound buffers and flags and a valid table of users, and it changes
-- the globals only if the connection had authenticated.
pub Reaches-Goes :
    {c : MgmtConn} {g : Shared} (e : Ready) → Reaches c g → Enabled c e → Goes c g (handle c g e)
Reaches-Goes {c} {g} e r h = handle-Goes c g e (Reaches-IsValid r) h
