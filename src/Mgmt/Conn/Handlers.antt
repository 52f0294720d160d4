-- ===== src/Mgmt/Conn/Handlers.antt =====
-- The two handlers of src/mgmt.c on a sound connection.
use tpe2026c1_socks.Users.Table
use tpe2026c1_socks.Net.{
  received, RecvFits, RecvResult, SendFits, SendResult, only_read, recv_again, recv_failed,
  send_again, send_failed, sent_bytes,
}
use tpe2026c1_socks.Mgmt.Conn.Serve.{IsValid, InPhase}
use mathlib.Core.Bool.{false≢true}
use tpe2026c1_socks.Buffer.{Buffer, buffer_can_read, buffer_init}
use tpe2026c1_socks.Buffer.Bounds.{buffer_init-IsValid, read_count, write_count}
use tpe2026c1_socks.Buffer.Queue.{Holds, buffer_read_adv_lem, write_adv_lem}
use tpe2026c1_socks.Mgmt.Conn.{
  MgmtConn, MgmtState, after_send, mgmt_auth, mgmt_auth_reply, mgmt_done, mgmt_new, mgmt_rbuf,
  mgmt_read, mgmt_request, mgmt_response, mgmt_try_process, mgmt_wbuf, mgmt_write, take_input,
}
use tpe2026c1_socks.Mgmt.Conn.Safe.{Goes, InPhase-same, done-IsValid, stays, try_process-Goes}
use tpe2026c1_socks.Mgmt.Process.{Shared}
use tpe2026c1_socks.Prelude.{
  Bool, Bool-cases, Bytes, Option, ap, arith, false, if◌then◌else◌, inl, inr, length,
  length-replicate, refl, replicate, some, sym, true, ℕ, ◌-◌, ◌==◌, ◌∙◌, ◌≡◌,
}
use tpe2026c1_socks.Prelude.Memory.{store_in}

-- The connection whose read buffer holds the bytes received.
received_into :
    {c : MgmtConn} {g : Shared} {rb : Buffer} {q : Bytes}
    → Holds c.rbuf rb q
    → IsValid c g
    → IsValid (record c { rbuf = rb }) g
received_into {c} {rb = rb} k v = record {
  rbuf = k.valid;
  wbuf = v.wbuf;
  rlimit = k.limit ∙ v.rlimit;
  wlimit = v.wlimit;
  users = v.users;
  phase = InPhase-same c (record c { rbuf = rb }) c.state refl refl refl v.phase;
}

sent_from :
    {c : MgmtConn} {g : Shared} {wb : Buffer} {q : Bytes}
    → Holds c.wbuf wb q
    → IsValid c g
    → IsValid (record c { wbuf = wb }) g
sent_from {c} {wb = wb} k v = record {
  rbuf = v.rbuf;
  wbuf = k.valid;
  rlimit = v.rlimit;
  wlimit = k.limit ∙ v.wlimit;
  users = v.users;
  phase = InPhase-same c (record c { wbuf = wb }) c.state refl refl refl v.phase;
}

take_input-Goes :
    (c : MgmtConn) (g : Shared) (result : RecvResult)
    → IsValid c g
    → RecvFits (c.rbuf.limit - c.rbuf.write) result
    → Goes c g (take_input c g c.rbuf.write result)
unfolding take_input
take_input-Goes c g recv_again v f = stays c c v
take_input-Goes c g recv_failed v f = stays c (mgmt_done c) (done-IsValid v)
take_input-Goes c g (received bs) v f = elim (Bool-cases (length bs == 0)) [
  | inl ends ↦ rw ends (stays c (mgmt_done c) (done-IsValid v))
  | inr some_more ↦
      let (rb, e, k, _) = write_adv_lem bs v.rbuf (omega (arith, v.rbuf, f.0)) in
      let s = store_in c.rbuf.storage c.rbuf.write bs (omega (arith, v.rbuf, f.0)) in
      rw (some_more, s, e) (try_process-Goes (record c { rbuf = rb }) g (received_into k v))
]

-- `mgmt_read` on a sound connection, whatever `recv` returns, does not abort and leaves a sound
-- connection; the globals change only if the connection had authenticated.
pub mgmt_read_lem :
    (c : MgmtConn) (g : Shared) (result : RecvResult)
    → IsValid c g
    → RecvFits (c.rbuf.limit - c.rbuf.write) result
    → Goes c g (mgmt_read c g result)
unfolding mgmt_read
mgmt_read_lem c g result v f = elim (Bool-cases ((c.rbuf.limit - c.rbuf.write) == 0)) [
  | inl full ↦ rw (write_count v.rbuf, full) (stays c (mgmt_done c) (done-IsValid v))
  | inr room ↦ rw (write_count v.rbuf, room) (take_input-Goes c g result v f)
]

-- A handler that sends is registered only behind an answer, and so only an authenticated
-- connection goes on to requests.
sending_auth :
    (c : MgmtConn) (s : MgmtState)
    → InPhase s c
    → c.interest.op_write ≡ true
    → c.close_after_write ≡ false
    → c.auth_ok ≡ true
sending_auth c mgmt_auth h i w = absurd (false≢true (sym (ap (λ t. t.op_write) h.1) ∙ i))
sending_auth c mgmt_auth_reply h i w = ground arith
sending_auth c mgmt_request h i w = h.0
sending_auth c mgmt_response h i w = h.0

choice-Goes :
    (c : MgmtConn) (g : Shared) (b : Bool) (x y : Option (MgmtConn × Shared))
    → (b ≡ true → Goes c g x)
    → (b ≡ false → Goes c g y)
    → Goes c g (if b then x else y)
choice-Goes c g true x y h k = h refl
choice-Goes c g false x y h k = k refl

again-IsValid :
    (c : MgmtConn) (g : Shared)
    → c.auth_ok ≡ true
    → c.close_after_write ≡ false
    → IsValid c g
    → IsValid (record c { state = mgmt_request; interest = only_read }) g
again-IsValid c g ok keeps v = record {
  rbuf = v.rbuf;
  wbuf = v.wbuf;
  rlimit = v.rlimit;
  wlimit = v.wlimit;
  users = v.users;
  phase = (ok, keeps, refl);
}

after_send-Goes :
    (c : MgmtConn) (g : Shared)
    → IsValid c g
    → c.interest.op_write ≡ true
    → Goes c g (after_send c g)
unfolding after_send
after_send-Goes c g v i =
    let again : MgmtConn = record c { state = mgmt_request; interest = only_read } in
    let next : Option (MgmtConn × Shared) = mgmt_try_process again g in
    choice-Goes c g (buffer_can_read c.wbuf) (some (c, g))
      (if c.close_after_write then some (mgmt_done c, g) else next) (λ _. stays c c v)
      (λ _.
        choice-Goes c g c.close_after_write (some (mgmt_done c, g)) next
          (λ _. stays c (mgmt_done c) (done-IsValid v))
          (λ keeps.
            try_process-Goes again g
              (again-IsValid c g (sending_auth c c.state v.phase i keeps) keeps v)))

-- `mgmt_write` on a sound connection with an answer to send, whatever `send` returns, does not
-- abort and leaves a sound connection; the globals change only if the connection had
-- authenticated.
pub mgmt_write_lem :
    (c : MgmtConn) (g : Shared) (result : SendResult)
    → IsValid c g
    → c.interest.op_write ≡ true
    → SendFits (c.wbuf.write - c.wbuf.read) result
    → Goes c g (mgmt_write c g result)
unfolding mgmt_write
mgmt_write_lem c g send_again v i f = rw (read_count v.wbuf) (stays c c v)
mgmt_write_lem c g send_failed v i f =
    rw (read_count v.wbuf) (stays c (mgmt_done c) (done-IsValid v))
mgmt_write_lem c g (sent_bytes w) v i f =
    let (wb, e, k) = buffer_read_adv_lem w v.wbuf f in
    rw (read_count v.wbuf, e) (after_send-Goes (record c { wbuf = wb }) g (sent_from k v) i)

pub mgmt_new-IsValid : (g : Shared) → Table.IsValid g.users → IsValid mgmt_new g
unfolding mgmt_new
mgmt_new-IsValid g u = record {
  rbuf =
      buffer_init-IsValid mgmt_rbuf (replicate mgmt_rbuf 0)
        (omega (arith, length-replicate {A = ℕ} mgmt_rbuf 0)) (omega arith);
  wbuf =
      buffer_init-IsValid mgmt_wbuf (replicate mgmt_wbuf 0)
        (omega (arith, length-replicate {A = ℕ} mgmt_wbuf 0)) (omega arith);
  rlimit = unfold buffer_init in refl;
  wlimit = unfold buffer_init in refl;
  users = u;
  phase = (refl, refl);
}
