-- ===== src/Client/Login.antt =====
-- The handshake of src/client.c through the connection of src/mgmt.c.
use tpe2026c1_socks.Buffer.Bounds.{read_count}
use tpe2026c1_socks.Buffer.Queue.{contents, length-contents}
use tpe2026c1_socks.Client.{do_auth_bytes}
use tpe2026c1_socks.Client.Frame.{
  first_field, length-two_fields, second_field, second_length, two_fields, two_fields-append,
}
use tpe2026c1_socks.Mgmt.Conn.{MgmtConn, mgmt_auth, mgmt_auth_reply, mgmt_try_process, try_in}
use tpe2026c1_socks.Mgmt.Conn.Serve.{IsValid, auth_reply, is_admin, take_auth_lem}
use tpe2026c1_socks.Mgmt.Parse.{consumed, parse_auth}
use tpe2026c1_socks.Mgmt.Process.{Shared}
use tpe2026c1_socks.Net.{only_write}
use tpe2026c1_socks.Prelude.{
  Bool-cases, Bytes, Option, [], ap, append-nil, arith, drop, drop-append, inl, inr, length,
  length-append, ltb, not, refl, some, some_inj, subst, sym, true, ℕ, ◌%◌, ◌++◌, ◌+◌, ◌-◌, ◌<◌,
  ◌==◌, ◌||◌, ◌↔◌, ◌∙◌, ◌∷◌, ◌≡◌, ◌≤◌,
}
use tpe2026c1_socks.Prelude.Memory.{byte_at, window}
use tpe2026c1_socks.Prelude.Text.{IsText, c_string, c_string-IsText, str_eq_iff}
use tpe2026c1_socks.Smp.{smp_version}
use mathlib.Core.Path.{ap₂}

abbrev auth_frame : Bytes → Bytes → Bytes
auth_frame u w = two_fields (smp_version ∷ []) u w []

-- The parser on bytes that hold the two lengths.
auth_whole :
    (p : Bytes) (m n : ℕ)
    → byte_at p 0 ≡ smp_version
    → byte_at p 1 ≡ m
    → byte_at p (2 + m) ≡ n
    → 0 < m
    → 0 < n
    → 3 + m + n ≤ length p
    → parse_auth p ≡ (consumed (3 + m + n), c_string (window p 2 m), c_string (window p (3 + m) n))
unfolding parse_auth
auth_whole p m n e0 e1 e2 lm ln h =
    let need : 2 + m + 1 + n ≡ 3 + m + n = omega arith in rw (e0, e1, e2, need) (ground arith)

auth_parsed :
    (u w rest : Bytes)
    → 0 < length u
    → 0 < length w
    → IsText u
    → IsText w
    → parse_auth (auth_frame u w ++ rest) ≡ (consumed (3 + length u + length w), u, w)
auth_parsed u w rest lu lw hu hw =
    let pre : Bytes = smp_version ∷ [] in
    rw (two_fields-append pre u w rest) (
      auth_whole (two_fields pre u w rest) (length u) (length w) refl refl
        (second_length pre u w rest (2 + length u) (omega arith)) lu lw
        (omega (arith, length-two_fields pre u w rest))
      ∙ ap₂ (λ a b. (consumed (3 + length u + length w), a, b))
          (ap c_string (first_field pre u w rest 2 (omega arith)) ∙ c_string-IsText u hu)
          (ap c_string (second_field pre u w rest (3 + length u) (omega arith))
            ∙ c_string-IsText w hw))

auth_sent :
    (u w : Bytes) {bs : Bytes}
    → do_auth_bytes u w ≡ some bs
    → (0 < length u) × (0 < length w) × (auth_frame u w ≡ bs)
unfolding do_auth_bytes
auth_sent u w {bs} e =
    elim (Bool-cases (length u == 0 || ltb 255 (length u) || length w == 0 || ltb 255 (length w))) [
      | inl unfit ↦ absurd (cc (rw unfit at e))
      | inr fit ↦
          let lu : (0 < length u) × (length u ≤ 255) = ground arith in
          let lw : (0 < length w) × (length w ≤ 255) = ground arith in
          let mu : length u % 256 ≡ length u = omega arith in
          let mw : length w % 256 ≡ length w = omega arith in
          (lu.0, lw.0, rw append-nil (some_inj (rw (fit, mu, mw) at e)))
    ]

is_admin_iff :
    (g : Shared) (u w : Bytes)
    → (is_admin g u w ≡ true) ↔ ((u ≡ g.config.admin_user) × (w ≡ g.config.admin_pass))
is_admin_iff g u w =
    ground (arith, str_eq_iff u g.config.admin_user, str_eq_iff w g.config.admin_pass)

-- The connection that a login leaves: the input `rest`, two bytes to send that tell whether the
-- client is the admin, and the connection open for requests exactly then.
abbrev pub LogsIn : Shared → Bytes → Bytes → Bytes → Option (MgmtConn × Shared) → Type 0
LogsIn g u w rest r =
    (c' : MgmtConn) × (r ≡ some (c', g))
    × ((c'.auth_ok ≡ true) ↔ ((u ≡ g.config.admin_user) × (w ≡ g.config.admin_pass)))
    × (contents c'.rbuf ≡ rest)
    × (contents c'.wbuf ≡ auth_reply c'.auth_ok)
    × (c'.close_after_write ≡ not c'.auth_ok)
    × (c'.state ≡ mgmt_auth_reply)
    × (c'.interest ≡ only_write)

-- On a sound connection that waits for credentials, the bytes that the client sends to log in with
-- two strings are taken, those behind them stay, and no call aborts. The connection is
-- authenticated exactly if the two strings are the admin's name and password; the answer says
-- which, and otherwise the connection is to be closed behind the answer. The globals stay as they
-- were.
pub login_session :
    (c : MgmtConn) (g : Shared) (u w : Bytes) {bs : Bytes} (rest : Bytes)
    → IsValid c g
    → c.state ≡ mgmt_auth
    → IsText u
    → IsText w
    → do_auth_bytes u w ≡ some bs
    → contents c.rbuf ≡ bs ++ rest
    → LogsIn g u w rest (mgmt_try_process c g)
unfolding mgmt_try_process try_in
login_session c g u w {bs} rest v s hu hw e q =
    let (lu, lw, f) = auth_sent u w e in
    let size : length bs ≡ 3 + length u + length w =
      omega (arith, ap length f, length-two_fields (smp_version ∷ []) u w []) in
    let parsed : parse_auth (bs ++ rest) ≡ (consumed (length bs), u, w) =
      ap (λ t. parse_auth (t ++ rest)) (sym f)
      ∙ auth_parsed u w rest lu lw hu hw
      ∙ ap (λ n. (consumed n, u, w)) (sym size) in
    let long : length bs ≤ c.rbuf.write - c.rbuf.read =
      omega (arith, length-contents v.rbuf, ap length q, length-append bs rest) in
    let (c', p, t, a, k, st) = take_auth_lem c g (length bs) u w v long in
    (
      c',
      rw (read_count v.rbuf)
          (subst (λ z. try_in z c g (contents c.rbuf) ≡ some (c', g)) (sym s) (rw (q, parsed) p)),
      subst (λ b. (b ≡ true) ↔ ((u ≡ g.config.admin_user) × (w ≡ g.config.admin_pass))) (sym a)
          (is_admin_iff g u w),
      t.input.holds ∙ ap (drop (length bs)) q ∙ drop-append bs rest (length bs) refl,
      t.output.holds ∙ ap auth_reply (sym a),
      k ∙ ap not (sym a),
      st,
      t.waits,
    )
