-- ===== src/Client/Session.antt =====
-- A request of src/client.c through the connection of src/mgmt.c to the table of users.
use tpe2026c1_socks.Users.Table
use tpe2026c1_socks.Mgmt.Conn.Serve.{IsValid, Serves, take_request_lem}
use tpe2026c1_socks.Client.RoundTrip.{Delivers, cmd_add_user-Delivers}
use tpe2026c1_socks.Buffer.Bounds.{read_count}
use tpe2026c1_socks.Buffer.Queue.{contents, length-contents}
use tpe2026c1_socks.Client.{cmd_add_user_bytes}
use tpe2026c1_socks.Mgmt.Conn.{MgmtConn, mgmt_request, mgmt_try_process, try_in}
use tpe2026c1_socks.Mgmt.Parse.{MgmtReq}
use tpe2026c1_socks.Mgmt.Process.{Shared, add_status}
use tpe2026c1_socks.Mgmt.Process.Answer.{answer, effect}
use tpe2026c1_socks.Prelude.{
  All, Bytes, List, ap, arith, if◌then◌else◌, inl, inr, length, length-append, none, refl, some,
  sym, true, ℕ, ◌&&◌, ◌++◌, ◌-◌, ◌≡◌, ◌≤◌, ◌⊎◌, subst, drop, drop-append, ◌∙◌,
}
use tpe2026c1_socks.Prelude.Text.{str_eq, IsText}
use tpe2026c1_socks.Smp.{smp_ok, smp_user_limit_reached, smp_cmd_add_user}
use tpe2026c1_socks.Users.{
  User, UsersResult, already_exists, users_full, users_invalid, users_not_found, users_ok,
  valid_field, users_add,
}
use tpe2026c1_socks.Users.Map.{password}
use tpe2026c1_socks.Users.Operations.{Added, users_add_lem}
use tpe2026c1_socks.Mgmt.Bytes.{header}
use tpe2026c1_socks.Net.{only_write}
use mathlib.Core.Bool.{false≢true}

-- A request of the client that stands at the head of the input of a connection in MGMT_REQUEST is
-- taken from it alone, and has its effect and its answer.
pub request_served :
    (c : MgmtConn) (g : Shared) {bs : Bytes} {r : MgmtReq} (rest : Bytes)
    → IsValid c g
    → c.state ≡ mgmt_request
    → Delivers bs r
    → contents c.rbuf ≡ bs ++ rest
    → Serves c (effect g r) (length bs) (answer g r) (mgmt_try_process c g)
unfolding mgmt_try_process try_in
request_served c g {bs} {r} rest v s d e =
    let long : length bs ≤ c.rbuf.write - c.rbuf.read =
      omega (arith, length-contents v.rbuf, ap length e, length-append bs rest) in
    rw (read_count v.rbuf) (
      subst (λ t. Serves c (effect g r) (length bs) (answer g r) (try_in t c g (contents c.rbuf)))
        (sym s) (rw (e, d.whole rest) (take_request_lem c g (length bs) r v long)))

-- What the answer to ADD_USER says of the tables before and after.
abbrev pub Registered : List User → Bytes → Bytes → List User → ℕ → Type 0
Registered db u w db' st =
    ((st ≡ smp_ok)
      × ((m : Bytes) → password db' m ≡ (if str_eq u m then some w else password db m)))
    ⊎ ((st ≡ smp_user_limit_reached)
        × (db' ≡ db)
        × (password db u ≡ none)
        × All (λ e. e.used ≡ true) db)

registered :
    (db : List User) (u w : Bytes) (r : UsersResult × List User)
    → Added db u w r
    → Registered db u w r.1 (add_status r.0)
registered db u w (users_ok, db') h = inl (refl, h)
registered db u w (users_full, db') h = inr (refl, h.0, h.1, h.2)
registered db u w (already_exists, db') h = absurd h
registered db u w (users_not_found, db') h = absurd h
registered db u w (users_invalid, db') h = absurd h

add_user-fits :
    (u w : Bytes) {bs : Bytes}
    → cmd_add_user_bytes u w ≡ some bs
    → (valid_field (some u) 255 && valid_field (some w) 255) ≡ true
unfolding cmd_add_user_bytes valid_field
add_user-fits u w e = ground arith

add_user-Registered :
    (g : Shared) (u w : Bytes) {bs : Bytes}
    → Table.IsValid g.users
    → cmd_add_user_bytes u w ≡ some bs
    → Registered g.users u w
        (users_add g.users (some u) (some w)).1
        (add_status (users_add g.users (some u) (some w)).0)
add_user-Registered g u w v e = elim (users_add_lem g.users (some u) (some w) v).1 [
  | inl unfit ↦ absurd (false≢true (sym unfit.1 ∙ add_user-fits u w e))
  | inr fits ↦ registered g.users u w (users_add g.users (some u) (some w)) fits.2
]

-- On an authenticated connection that waits for a request, the bytes that the client sends for
-- `add-user` are taken, those behind them stay, and the answer tells the truth: success, and the
-- table maps the name to the password and every other name as before, or the limit of users, and
-- the table, which has no such name and no free entry, is unchanged.
pub add_user_session :
    (c : MgmtConn) (g : Shared) (u w : Bytes) {bs : Bytes} (rest : Bytes)
    → IsValid c g
    → c.state ≡ mgmt_request
    → IsText u
    → IsText w
    → cmd_add_user_bytes u w ≡ some bs
    → contents c.rbuf ≡ bs ++ rest
    → (c' : MgmtConn) × (db : List User) × (st : ℕ) × (mgmt_try_process c g
        ≡ some (c', record g { users = db }))
      × (contents c'.rbuf ≡ rest)
      × (contents c'.wbuf ≡ header smp_cmd_add_user st 0)
      × (c'.interest ≡ only_write)
      × Registered g.users u w db st
unfolding effect answer
add_user_session c g u w {bs} rest v s hu hw e q =
    let (c', p, t, _, _, _) = request_served c g rest v s (cmd_add_user-Delivers u w hu hw e) q in
    (
      c',
      (users_add g.users (some u) (some w)).1,
      add_status (users_add g.users (some u) (some w)).0,
      p,
      t.input.holds ∙ ap (drop (length bs)) q ∙ drop-append bs rest (length bs) refl,
      t.output.holds,
      t.waits,
      add_user-Registered g u w v.users e,
    )
