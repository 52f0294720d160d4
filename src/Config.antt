-- ===== src/Config.antt =====
-- src/config.c and src/config.h: the configuration that the management protocol changes.
use tpe2026c1_socks.Prelude.{Bool, Bytes, [], false, ℕ, ◌^◌, ◌∷◌}

abbrev pub config_min_buffer : ℕ
config_min_buffer = 256

abbrev pub config_max_buffer : ℕ
config_max_buffer = 2 ^ 20

-- `struct proxy_config`; the two arrays are the C strings that they hold.
pub record ProxyConfig : Type 0 where
  pub io_buffer_size : ℕ
  pub conn_timeout_secs : ℕ
  pub auth_required : Bool
  pub pop3_sniff : Bool
  pub admin_user : Bytes
  pub admin_pass : Bytes

abbrev pub admin : Bytes
admin = b'a' ∷ b'd' ∷ b'm' ∷ b'i' ∷ b'n' ∷ []

unfoldable pub config_init_defaults : ProxyConfig
config_init_defaults = record {
  io_buffer_size = 8192;
  conn_timeout_secs = 0;
  auth_required = false;
  pop3_sniff = false;
  admin_user = admin;
  admin_pass = admin;
}
