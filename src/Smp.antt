-- ===== src/Smp.antt =====
-- src/smp.h: the constants of the management protocol, which the server and the client share.
use tpe2026c1_socks.Prelude.{ℕ}

abbrev pub smp_version : ℕ
smp_version = 0x01

-- `enum smp_cmd`
abbrev pub smp_cmd_metrics : ℕ
smp_cmd_metrics = 0x00

abbrev pub smp_cmd_add_user : ℕ
smp_cmd_add_user = 0x01

abbrev pub smp_cmd_del_user : ℕ
smp_cmd_del_user = 0x02

abbrev pub smp_cmd_list_users : ℕ
smp_cmd_list_users = 0x03

abbrev pub smp_cmd_get_config : ℕ
smp_cmd_get_config = 0x04

abbrev pub smp_cmd_set_config : ℕ
smp_cmd_set_config = 0x05

-- `enum smp_status`, the codes that the server sends and those that only the client names
abbrev pub smp_ok : ℕ
smp_ok = 0x00

abbrev pub smp_auth_required : ℕ
smp_auth_required = 0x01

abbrev pub smp_unknown_command : ℕ
smp_unknown_command = 0x02

abbrev pub smp_invalid_arguments : ℕ
smp_invalid_arguments = 0x03

abbrev pub smp_user_already_exists : ℕ
smp_user_already_exists = 0x04

abbrev pub smp_user_not_found : ℕ
smp_user_not_found = 0x05

abbrev pub smp_user_limit_reached : ℕ
smp_user_limit_reached = 0x06

abbrev pub smp_internal_error : ℕ
smp_internal_error = 0x07

-- `enum smp_auth_status`
abbrev pub smp_auth_ok : ℕ
smp_auth_ok = 0x00

abbrev pub smp_auth_failed : ℕ
smp_auth_failed = 0x01

-- `enum smp_config_key`
abbrev pub smp_cfg_io_buffer_size : ℕ
smp_cfg_io_buffer_size = 0x01

abbrev pub smp_cfg_conn_timeout : ℕ
smp_cfg_conn_timeout = 0x02

abbrev pub smp_cfg_auth_required : ℕ
smp_cfg_auth_required = 0x03
