-- ===== src/Mgmt/Conn/Safe.antt =====
-- The invariant of a connection of src/mgmt.c through every handler.
use tpe2026c1_socks.Users.Operations.{users_add_lem, users_del_lem}
use tpe2026c1_socks.Users.Table
use tpe2026c1_socks.Mgmt.Parse.{
  MgmtReq, Rc, consumed, unknown, refused, need_more, parse_auth, parse_request,
}
use tpe2026c1_socks.Buffer.{buffer_reset}
use tpe2026c1_socks.Mgmt.Conn.{
  MgmtConn, MgmtState, mgmt_auth_reply, mgmt_done, mgmt_response, take_auth, take_request,
  mgmt_auth, mgmt_request, mgmt_try_process, try_in,
}
use tpe2026c1_socks.Mgmt.Conn.Serve.{
  InPhase, IsValid, Took, take_auth_lem, take_request_lem, take_unknown_lem, Serves,
}
use tpe2026c1_socks.Mgmt.Parse.Bounds.{Bounded, parse_auth-Bounded, parse_request-Bounded}
use tpe2026c1_socks.Mgmt.Process.{Shared}
use tpe2026c1_socks.Mgmt.Process.Answer.{effect}
use tpe2026c1_socks.Prelude.{
  Bool-cases, Bytes, Option, ap, false, inl, inr, not, refl, some, sym, true, ℕ, ◌-◌, ◌==◌, ◌∙◌,
  ◌≡◌, [], subst,
}
use tpe2026c1_socks.Smp.{smp_cmd_add_user, smp_cmd_del_user, smp_cmd_set_config}
use tpe2026c1_socks.Buffer.Bounds.{read_count}
use tpe2026c1_socks.Buffer.Queue.{Holds, buffer_reset_lem, contents, length-contents}

effect-IsValid :
    (g : Shared) (r : MgmtReq) → Table.IsValid g.users → Table.IsValid (effect g r).users
unfolding effect
effect-IsValid g r v = elim (Bool-cases (r.cmd == smp_cmd_add_user)) [
  | inl t ↦ rw t (users_add_lem g.users (some r.user) (some r.pass) v).0
  | inr t1 ↦ elim (Bool-cases (r.cmd == smp_cmd_del_user)) [
    | inl t ↦ rw (t1, t) (users_del_lem g.users r.user v).0
    | inr t2 ↦ elim (Bool-cases (r.cmd == smp_cmd_set_config)) [
      | inl t ↦ rw (t1, t2, t) v
      | inr t3 ↦ rw (t1, t2, t3) v
    ]
  ]
]

-- A handler did not abort; it left a sound connection, and the globals as they were if the
-- connection had not authenticated.
abbrev pub Goes : MgmtConn → Shared → Option (MgmtConn × Shared) → Type 0
Goes c g r =
    (c' : MgmtConn) × (g' : Shared) × (r ≡ some (c', g'))
    × IsValid c' g'
    × (c.auth_ok ≡ false → g' ≡ g)

pub stays : {g : Shared} (c c' : MgmtConn) → IsValid c' g → Goes c g (some (c', g))
stays {g} c c' v = (c', g, refl, v, λ _. refl)

-- The phase depends on three fields.
pub InPhase-same :
    (c c' : MgmtConn) (s : MgmtState)
    → c'.auth_ok ≡ c.auth_ok
    → c'.close_after_write ≡ c.close_after_write
    → c'.interest ≡ c.interest
    → InPhase s c
    → InPhase s c'
InPhase-same c c' mgmt_auth a w i h = (a ∙ h.0, i ∙ h.1)
InPhase-same c c' mgmt_auth_reply a w i h = (w ∙ h.0 ∙ ap not (sym a), i ∙ h.1)
InPhase-same c c' mgmt_request a w i h = (a ∙ h.0, w ∙ h.1, i ∙ h.2)
InPhase-same c c' mgmt_response a w i h = (a ∙ h.0, w ∙ h.1, i ∙ h.2)

-- A state known by an equation.
in_phase : (c : MgmtConn) (s : MgmtState) → c.state ≡ s → InPhase s c → InPhase c.state c
in_phase c s e h = subst (λ t. InPhase t c) (sym e) h

pub done-IsValid : {c : MgmtConn} {g : Shared} → IsValid c g → IsValid (mgmt_done c) g
unfolding mgmt_done
done-IsValid {c} v = record {
  rbuf = v.rbuf;
  wbuf = v.wbuf;
  rlimit = v.rlimit;
  wlimit = v.wlimit;
  users = v.users;
  phase = InPhase-same c (record c { closed = true }) c.state refl refl refl v.phase;
}

Took-IsValid :
    {c c' : MgmtConn} {g g' : Shared} {n : ℕ} {out : Bytes}
    → Took c c' n out
    → IsValid c g
    → Table.IsValid g'.users
    → InPhase c'.state c'
    → IsValid c' g'
Took-IsValid t v u p = record {
  rbuf = t.input.valid;
  wbuf = t.output.valid;
  rlimit = t.input.limit ∙ v.rlimit;
  wlimit = t.output.limit ∙ v.wlimit;
  users = u;
  phase = p;
}

take_auth-Goes :
    (c : MgmtConn) (g : Shared) (rc : Rc) (user pass : Bytes)
    → Bounded (c.rbuf.write - c.rbuf.read) rc
    → IsValid c g
    → Goes c g (take_auth c g (rc, user, pass))
unfolding take_auth
take_auth-Goes c g need_more user pass b v = stays c c v
take_auth-Goes c g refused user pass b v = stays c (mgmt_done c) (done-IsValid v)
take_auth-Goes c g unknown user pass b v = stays c (mgmt_done c) (done-IsValid v)
take_auth-Goes c g (consumed n) user pass b v =
    let (c', e, t, a, w, s) = take_auth_lem c g n user pass v b in
    (
      c',
      g,
      e,
      Took-IsValid t v v.users (in_phase c' mgmt_auth_reply s (w ∙ ap not (sym a), t.waits)),
      λ _. refl,
    )

Serves-Goes :
    (c : MgmtConn) (g g' : Shared) (n : ℕ) (out : Bytes) (r : Option (MgmtConn × Shared))
    → IsValid c g
    → c.auth_ok ≡ true
    → c.close_after_write ≡ false
    → Table.IsValid g'.users
    → Serves c g' n out r
    → Goes c g r
Serves-Goes c g g' n out r v ok keeps u (c', e, t, a, w, s) = (
  c',
  g',
  e,
  Took-IsValid t v u (in_phase c' mgmt_response s (a ∙ ok, w ∙ keeps, t.waits)),
  λ f. absurd (cc),
)

reset-IsValid :
    (c : MgmtConn) (g : Shared) → IsValid c g → IsValid (record c { wbuf = buffer_reset c.wbuf }) g
reset-IsValid c g v =
    let z : Holds c.wbuf (buffer_reset c.wbuf) [] = buffer_reset_lem v.wbuf in
    record {
      rbuf = v.rbuf;
      wbuf = z.valid;
      rlimit = v.rlimit;
      wlimit = z.limit ∙ v.wlimit;
      users = v.users;
      phase =
          InPhase-same c (record c { wbuf = buffer_reset c.wbuf }) c.state refl refl refl v.phase;
    }

take_request-Goes :
    (c : MgmtConn) (g : Shared) (rc : Rc) (r : MgmtReq)
    → Bounded (c.rbuf.write - c.rbuf.read) rc
    → IsValid c g
    → c.auth_ok ≡ true
    → c.close_after_write ≡ false
    → Goes c g (take_request c g (rc, r))
unfolding take_request
take_request-Goes c g need_more r b v ok keeps = stays c c v
take_request-Goes c g refused r b v ok keeps = stays c _ (done-IsValid (reset-IsValid c g v))
take_request-Goes c g unknown r b v ok keeps =
    Serves-Goes c g g 2 _ _ v ok keeps v.users (take_unknown_lem c g r v b)
take_request-Goes c g (consumed n) r b v ok keeps =
    Serves-Goes c g (effect g r) n _ _ v ok keeps (effect-IsValid g r v.users)
      (take_request_lem c g n r v b)

try_in-Goes :
    (c : MgmtConn) (g : Shared) (s : MgmtState)
    → InPhase s c
    → IsValid c g
    → Goes c g (try_in s c g (contents c.rbuf))
unfolding try_in
try_in-Goes c g mgmt_auth h v =
    let l = length-contents v.rbuf in
    let b : Bounded (c.rbuf.write - c.rbuf.read) (parse_auth (contents c.rbuf)).0 =
      subst (λ n. Bounded n (parse_auth (contents c.rbuf)).0) l
        (parse_auth-Bounded (contents c.rbuf)) in
    take_auth-Goes c g _ _ _ b v
try_in-Goes c g mgmt_request h v =
    let l = length-contents v.rbuf in
    let b : Bounded (c.rbuf.write - c.rbuf.read) (parse_request (contents c.rbuf)).0 =
      subst (λ n. Bounded n (parse_request (contents c.rbuf)).0) l
        (parse_request-Bounded (contents c.rbuf)) in
    take_request-Goes c g _ _ b v h.0 h.1
try_in-Goes c g mgmt_auth_reply h v = stays c c v
try_in-Goes c g mgmt_response h v = stays c c v

pub try_process-Goes : (c : MgmtConn) (g : Shared) → IsValid c g → Goes c g (mgmt_try_process c g)
unfolding mgmt_try_process
try_process-Goes c g v = rw (read_count v.rbuf) (try_in-Goes c g c.state v.phase v)
