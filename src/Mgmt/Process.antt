-- ===== src/Mgmt/Process.antt =====
-- `process_request` of src/mgmt.c: what each command does to the globals and what it answers.
pub mod Answer
pub mod Served
use tpe2026c1_socks.Buffer.{Buffer}
use tpe2026c1_socks.Config.{ProxyConfig, config_max_buffer, config_min_buffer}
use tpe2026c1_socks.Metrics.{Metrics}
use tpe2026c1_socks.Mgmt.Parse.{MgmtReq}
use tpe2026c1_socks.Mgmt.Wire.{resp_get_config, resp_list_users, resp_metrics, resp_simple}
use tpe2026c1_socks.Prelude.{List, Option, if◌then◌else◌, ltb, not, some, ℕ, ◌==◌, ◌>>=◌}
use tpe2026c1_socks.Smp.{
  smp_cfg_auth_required, smp_cfg_conn_timeout, smp_cfg_io_buffer_size, smp_cmd_add_user,
  smp_cmd_del_user, smp_cmd_get_config, smp_cmd_list_users, smp_cmd_metrics, smp_cmd_set_config,
  smp_invalid_arguments, smp_ok, smp_unknown_command, smp_user_limit_reached, smp_user_not_found,
}
use tpe2026c1_socks.Users.{
  User, UsersResult, users_full, users_invalid, users_not_found, users_ok, users_add, users_del,
}

-- The globals of users.c, config.c and metrics.c.
pub record Shared : Type 0 where
  pub users : List User
  pub config : ProxyConfig
  pub metrics : Metrics

-- `case SMP_CMD_ADD_USER`: the status for the result of `users_add`.
abbrev pub add_status : UsersResult → ℕ
add_status users_full = smp_user_limit_reached
add_status users_invalid = smp_invalid_arguments
add_status _ = smp_ok

-- `case SMP_CMD_DEL_USER`: the status for the result of `users_del`.
abbrev pub del_status : UsersResult → ℕ
del_status users_ok = smp_ok
del_status users_not_found = smp_user_not_found
del_status _ = smp_invalid_arguments

-- A 32-bit size held between the two limits.
unfoldable pub clamp_buffer : ℕ → ℕ
clamp_buffer v =
    let low = if ltb v config_min_buffer then config_min_buffer else v in
    if ltb config_max_buffer low then config_max_buffer else low

-- `case SMP_CMD_SET_CONFIG`: the status and the configuration that is left.
unfoldable pub set_config : ProxyConfig → MgmtReq → ℕ × ProxyConfig
unfolding clamp_buffer
set_config cfg r =
    if r.key == smp_cfg_io_buffer_size
    then (smp_ok, record cfg { io_buffer_size = clamp_buffer r.u32 })
    else if r.key == smp_cfg_conn_timeout
    then (smp_ok, record cfg { conn_timeout_secs = r.u32 })
    else if r.key == smp_cfg_auth_required
    then (smp_ok, record cfg { auth_required = not (r.u8 == 0) })
    else (smp_invalid_arguments, cfg)

abbrev keep : Shared → Option Buffer → Option (Shared × Buffer)
keep g m = do b ← m; some (g, b)

unfoldable pub process_request : Shared → Buffer → MgmtReq → Option (Shared × Buffer)
unfolding set_config
process_request g wbuf r =
    if r.cmd == smp_cmd_metrics
    then keep g (resp_metrics g.metrics g.users wbuf)
    else if r.cmd == smp_cmd_get_config
    then keep g (resp_get_config g.config wbuf)
    else if r.cmd == smp_cmd_list_users
    then keep g (resp_list_users g.users wbuf)
    else if r.cmd == smp_cmd_add_user
    then (let (ur, db) = users_add g.users (some r.user) (some r.pass) in
        keep (record g { users = db }) (resp_simple r.cmd (add_status ur) wbuf))
    else if r.cmd == smp_cmd_del_user
    then (let (ur, db) = users_del g.users (some r.user) in
        keep (record g { users = db }) (resp_simple r.cmd (del_status ur) wbuf))
    else if r.cmd == smp_cmd_set_config
    then (let (st, cfg) = set_config g.config r in
        keep (record g { config = cfg }) (resp_simple r.cmd st wbuf))
    else keep g (resp_simple r.cmd smp_unknown_command wbuf)
