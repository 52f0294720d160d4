-- ===== src/Mgmt/Conn/Serve.antt =====
-- What the two branches of `mgmt_try_process` that process input leave, where the input is whole.
use tpe2026c1_socks.Users.Table
use tpe2026c1_socks.Buffer.Bounds
use tpe2026c1_socks.Mgmt.Parse.{MgmtReq, consumed, unknown}
use tpe2026c1_socks.Prelude.{
  Bytes, arith, ℕ, ◌≤◌, Bool, Option, [], ap, drop, false, if◌then◌else◌, not, refl, some, true,
  ◌&&◌, ◌++◌, ◌-◌, ◌∙◌, ◌∷◌, ◌≡◌,
}
use tpe2026c1_socks.Buffer.{buffer_reset}
use tpe2026c1_socks.Buffer.Queue.{
  Holds, buffer_read_adv_lem, buffer_reset_lem, buffer_write_lem, contents,
}
use tpe2026c1_socks.Mgmt.Conn.{
  MgmtConn, MgmtState, mgmt_auth, mgmt_auth_reply, mgmt_rbuf, mgmt_request, mgmt_response,
  mgmt_wbuf, take_auth, take_request,
}
use tpe2026c1_socks.Mgmt.Process.{Shared}
use tpe2026c1_socks.Net.{only_read, only_write}
use tpe2026c1_socks.Prelude.Text.{str_eq}
use tpe2026c1_socks.Smp.{smp_auth_failed, smp_auth_ok, smp_version, smp_unknown_command}
use tpe2026c1_socks.Mgmt.Bytes.{emit_simple, header}
use tpe2026c1_socks.Mgmt.Process.Answer.{answer, effect, process_request_lem}

-- What the selector still serves: a connection with its phase's flags, its two buffers sound and of
-- the sizes of mgmt.c, and a sound table of users.
abbrev pub InPhase : MgmtState → MgmtConn → Type 0
InPhase mgmt_auth c = (c.auth_ok ≡ false) × (c.interest ≡ only_read)
InPhase mgmt_auth_reply c = (c.close_after_write ≡ not c.auth_ok) × (c.interest ≡ only_write)
InPhase mgmt_request c =
    (c.auth_ok ≡ true) × (c.close_after_write ≡ false) × (c.interest ≡ only_read)
InPhase mgmt_response c =
    (c.auth_ok ≡ true) × (c.close_after_write ≡ false) × (c.interest ≡ only_write)

pub record IsValid (c : MgmtConn) (g : Shared) : Type 0 where
  pub rbuf : Bounds.IsValid c.rbuf
  pub wbuf : Bounds.IsValid c.wbuf
  pub rlimit : c.rbuf.limit ≡ mgmt_rbuf
  pub wlimit : c.wbuf.limit ≡ mgmt_wbuf
  pub users : Table.IsValid g.users
  pub phase : InPhase c.state c

-- The reply of the server to credentials.
abbrev pub auth_reply : Bool → Bytes
auth_reply ok = smp_version ∷ (if ok then smp_auth_ok else smp_auth_failed) ∷ []

abbrev pub is_admin : Shared → Bytes → Bytes → Bool
is_admin g user pass = str_eq user g.config.admin_user && str_eq pass g.config.admin_pass

-- The connection `c'` has taken `n` bytes of the input of `c` and holds the bytes `out` to send.
pub record Took (c c' : MgmtConn) (n : ℕ) (out : Bytes) : Type 0 where
  pub input : Holds c.rbuf c'.rbuf (drop n (contents c.rbuf))
  pub output : Holds c.wbuf c'.wbuf out
  pub same : c'.closed ≡ c.closed
  pub waits : c'.interest ≡ only_write

-- The connection that credentials of `n` bytes leave, where `ok` says whether they are right.
abbrev pub Answers : MgmtConn → Shared → ℕ → Bool → Option (MgmtConn × Shared) → Type 0
Answers c g n ok r =
    (c' : MgmtConn) × (r ≡ some (c', g))
    × Took c c' n (auth_reply ok)
    × (c'.auth_ok ≡ ok)
    × (c'.close_after_write ≡ not ok)
    × (c'.state ≡ mgmt_auth_reply)

-- On a sound connection, once `n` bytes of the input were read as the credentials `user` and `pass`,
-- they are taken from it and answered with two bytes; the answer is success, and the connection authenticated, exactly for the
-- admin's name and password, and otherwise the connection is to be closed behind the answer. The
-- globals stay as they were, and no call aborts.
pub take_auth_lem :
    (c : MgmtConn) (g : Shared) (n : ℕ) (user pass : Bytes)
    → IsValid c g
    → n ≤ c.rbuf.write - c.rbuf.read
    → Answers c g n (is_admin g user pass) (take_auth c g (consumed n, user, pass))
unfolding take_auth
take_auth_lem c g n user pass v h =
    let (rb, e, k) = buffer_read_adv_lem n v.rbuf h in
    let ok : Bool = is_admin g user pass in
    let z : Holds c.wbuf (buffer_reset c.wbuf) [] = buffer_reset_lem v.wbuf in
    let w0 : (buffer_reset c.wbuf).write ≡ 0 = unfold buffer_reset in refl in
    let (w1, e1, k1, n1) =
      buffer_write_lem smp_version z.valid (omega (arith, w0, z.limit, v.wlimit)) in
    let (w2, e2, k2, n2) =
      buffer_write_lem (if ok then smp_auth_ok else smp_auth_failed) k1.valid
        (omega (arith, w0, n1, k1.limit, z.limit, v.wlimit)) in
    (
      record c {
        rbuf = rb;
        auth_ok = ok;
        wbuf = w2;
        close_after_write = not ok;
        state = mgmt_auth_reply;
        interest = only_write;
      },
      rw (e, e1, e2) refl,
      record {
        input = k;
        output = record {
          valid = k2.valid;
          holds =
              k2.holds
              ∙ ap (λ t. t ++ (if ok then smp_auth_ok else smp_auth_failed) ∷ [])
                  (k1.holds ∙ ap (λ t. t ++ smp_version ∷ []) z.holds);
          limit = k2.limit ∙ k1.limit ∙ z.limit;
        };
        same = refl;
        waits = refl;
      },
      refl,
      refl,
      refl,
    )

-- The connection that a request of `n` bytes with the answer `out` leaves, and the globals `g`.
abbrev pub Serves : MgmtConn → Shared → ℕ → Bytes → Option (MgmtConn × Shared) → Type 0
Serves c g n out r =
    (c' : MgmtConn) × (r ≡ some (c', g))
    × Took c c' n out
    × (c'.auth_ok ≡ c.auth_ok)
    × (c'.close_after_write ≡ c.close_after_write)
    × (c'.state ≡ mgmt_response)

-- A whole request is taken from the input, has its effect on the globals and is answered.
pub take_request_lem :
    (c : MgmtConn) (g : Shared) (n : ℕ) (r : MgmtReq)
    → IsValid c g
    → n ≤ c.rbuf.write - c.rbuf.read
    → Serves c (effect g r) n (answer g r) (take_request c g (consumed n, r))
unfolding take_request
take_request_lem c g n r v h =
    let (rb, e, k) = buffer_read_adv_lem n v.rbuf h in
    let z : Holds c.wbuf (buffer_reset c.wbuf) [] = buffer_reset_lem v.wbuf in
    let w0 : (buffer_reset c.wbuf).write ≡ 0 = unfold buffer_reset in refl in
    let (w1, e1, k1) =
      process_request_lem g (buffer_reset c.wbuf) r v.users z.valid
        (omega (arith, w0, z.limit, v.wlimit)) in
    (
      record c { rbuf = rb; wbuf = w1; state = mgmt_response; interest = only_write },
      rw (e, e1) refl,
      record {
        input = k;
        output = record {
          valid = k1.valid;
          holds = k1.holds ∙ ap (λ t. t ++ answer g r) z.holds;
          limit = k1.limit ∙ z.limit;
        };
        same = refl;
        waits = refl;
      },
      refl,
      refl,
      refl,
    )

-- An unknown command changes no global and is answered as such.
pub take_unknown_lem :
    (c : MgmtConn) (g : Shared) (r : MgmtReq)
    → IsValid c g
    → 2 ≤ c.rbuf.write - c.rbuf.read
    → Serves c g 2 (header r.cmd smp_unknown_command 0) (take_request c g (unknown, r))
unfolding take_request
take_unknown_lem c g r v h =
    let (rb, e, k) = buffer_read_adv_lem 2 v.rbuf h in
    let z : Holds c.wbuf (buffer_reset c.wbuf) [] = buffer_reset_lem v.wbuf in
    let w0 : (buffer_reset c.wbuf).write ≡ 0 = unfold buffer_reset in refl in
    let (w1, e1, k1, _) =
      (emit_simple r.cmd smp_unknown_command).emits (buffer_reset c.wbuf) z.valid
        (omega (arith, w0, z.limit, v.wlimit)) in
    (
      record c { rbuf = rb; wbuf = w1; state = mgmt_response; interest = only_write },
      rw (e, e1) refl,
      record {
        input = k;
        output = record {
          valid = k1.valid;
          holds = k1.holds ∙ ap (λ t. t ++ header r.cmd smp_unknown_command 0) z.holds;
          limit = k1.limit ∙ z.limit;
        };
        same = refl;
        waits = refl;
      },
      refl,
      refl,
      refl,
    )
