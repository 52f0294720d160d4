-- ===== src/Client/Tests.antt =====
-- `add-user` of src/client.c, from its arguments to the table of users.
use tpe2026c1_socks.Client.Login.{LogsIn, login_session}
use tpe2026c1_socks.Client.{do_auth_bytes, cmd_add_user_bytes}
use tpe2026c1_socks.Config.{admin, config_init_defaults}
use tpe2026c1_socks.Mgmt.Conn.{mgmt_auth, MgmtConn, mgmt_request, mgmt_try_process, mgmt_wbuf}
use tpe2026c1_socks.Smp.{smp_version, smp_cmd_add_user}
use tpe2026c1_socks.Users.{users_init, User}
use tpe2026c1_socks.Users.Operations.{users_init_lem}
use tpe2026c1_socks.Mgmt.Conn.Serve.{IsValid}
use tpe2026c1_socks.Buffer.{buffer_init}
use tpe2026c1_socks.Buffer.Queue.{contents}
use tpe2026c1_socks.Client.RoundTrip.{Delivers, cmd_add_user-Delivers}
use tpe2026c1_socks.Client.Session.{Registered, add_user_session}
use tpe2026c1_socks.Metrics.{metrics_init}
use tpe2026c1_socks.Mgmt.Bytes.{header}
use tpe2026c1_socks.Mgmt.Parse.{no_req}
use tpe2026c1_socks.Mgmt.Process.{Shared}
use tpe2026c1_socks.Net.{only_read, only_write}
use tpe2026c1_socks.Prelude.{
  Bytes, List, [], arith, false, length-replicate, refl, replicate, some, true, ℕ, ◌++◌, ◌∷◌, ◌≡◌,
}
use tpe2026c1_socks.Prelude.Text.{IsText}

abbrev ana : Bytes
ana = 97 ∷ 110 ∷ 97 ∷ []

abbrev pw : Bytes
pw = 112 ∷ 119 ∷ []

abbrev add_ana : Bytes
add_ana = 1 ∷ 1 ∷ 3 ∷ 97 ∷ 110 ∷ 97 ∷ 2 ∷ 112 ∷ 119 ∷ []

ana-IsText : IsText ana
ana-IsText = omega arith

pw-IsText : IsText pw
pw-IsText = omega arith

sent_bytes_ana : cmd_add_user_bytes ana pw ≡ some add_ana
unfolding cmd_add_user_bytes
sent_bytes_ana = refl

cmd_add_user-Delivers_example :
    Delivers add_ana (record no_req { cmd = smp_cmd_add_user; user = ana; pass = pw })
cmd_add_user-Delivers_example = cmd_add_user-Delivers ana pw ana-IsText pw-IsText sent_bytes_ana

abbrev start : Shared
start = record { users = users_init; config = config_init_defaults; metrics = metrics_init }

-- A connection that has authenticated, with the request and one byte of the next in its input.
abbrev waiting : MgmtConn
waiting = record {
  state = mgmt_request;
  auth_ok = true;
  close_after_write = false;
  rbuf = record { storage = add_ana ++ (1 ∷ replicate 4096 0); limit = 4096; read = 0; write = 10 };
  wbuf = buffer_init mgmt_wbuf (replicate mgmt_wbuf 0);
  interest = only_read;
  closed = false;
}

waiting-IsValid : IsValid waiting start
unfolding buffer_init
waiting-IsValid = record {
  rbuf = omega (arith, length-replicate {A = ℕ} 4096 0);
  wbuf = omega (arith, length-replicate {A = ℕ} mgmt_wbuf 0);
  rlimit = refl;
  wlimit = refl;
  users = users_init_lem.0;
  phase = (refl, refl, refl);
}

add_user_session_example :
    (c' : MgmtConn) × (db : List User) × (st : ℕ) × (mgmt_try_process waiting start
      ≡ some (c', record start { users = db }))
    × (contents c'.rbuf ≡ 1 ∷ [])
    × (contents c'.wbuf ≡ header smp_cmd_add_user st 0)
    × (c'.interest ≡ only_write)
    × Registered users_init ana pw db st
add_user_session_example =
    add_user_session waiting start ana pw (1 ∷ []) waiting-IsValid refl ana-IsText pw-IsText
      sent_bytes_ana refl

-- A connection whose input holds the admin's credentials, which are the defaults.
abbrev admin_login : Bytes
admin_login = smp_version ∷ 5 ∷ (admin ++ 5 ∷ admin)

abbrev login_conn : MgmtConn
login_conn = record {
  state = mgmt_auth;
  auth_ok = false;
  close_after_write = false;
  rbuf = record { storage = admin_login ++ replicate 4096 0; limit = 4096; read = 0; write = 13 };
  wbuf = buffer_init mgmt_wbuf (replicate mgmt_wbuf 0);
  interest = only_read;
  closed = false;
}

login_conn-IsValid : IsValid login_conn start
unfolding buffer_init
login_conn-IsValid = record {
  rbuf = omega (arith, length-replicate {A = ℕ} 4096 0);
  wbuf = omega (arith, length-replicate {A = ℕ} mgmt_wbuf 0);
  rlimit = refl;
  wlimit = refl;
  users = users_init_lem.0;
  phase = (refl, refl);
}

admin-IsText : IsText admin
admin-IsText = omega arith

login_sent : do_auth_bytes admin admin ≡ some admin_login
unfolding do_auth_bytes
login_sent = refl

login_session_example : LogsIn start admin admin [] (mgmt_try_process login_conn start)
login_session_example =
    login_session login_conn start admin admin [] login_conn-IsValid refl admin-IsText admin-IsText
      login_sent refl
