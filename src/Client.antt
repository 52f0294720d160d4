-- ===== src/Client.antt =====
-- src/client.c: what the terminal client sends, and how it reads the responses. An argument is a C
-- string; a client that refuses its arguments sends nothing, `none`.
pub mod Frame
pub mod RoundTrip
pub mod Login
pub mod Session
pub mod Transport
pub mod Receive
pub mod Read
pub mod Listed
mod Replies
mod Tests
use tpe2026c1_socks.Prelude.{
  Bytes, Option, [], if◌then◌else◌, length, ltb, none, some, ◌%◌, ◌++◌, ◌==◌, ◌||◌, ◌∷◌, not, ℕ,
  ◌/◌, ◌^◌,
}
use tpe2026c1_socks.Smp.{
  smp_cmd_add_user, smp_cmd_del_user, smp_cmd_get_config, smp_cmd_list_users, smp_cmd_metrics,
  smp_version, smp_cfg_auth_required, smp_cfg_conn_timeout, smp_cfg_io_buffer_size,
  smp_cmd_set_config,
}
use tpe2026c1_socks.Prelude.Text.{str_eq}

-- `do_auth`: the handshake that is sent.
unfoldable pub do_auth_bytes : Bytes → Bytes → Option Bytes
do_auth_bytes user pass =
    let ulen = length user in
    let plen = length pass in
    if ulen == 0 || ltb 255 ulen || plen == 0 || ltb 255 plen
    then none
    else some (smp_version ∷ ulen % 256 ∷ (user ++ (plen % 256 ∷ pass)))

unfoldable pub cmd_metrics_bytes : Bytes
cmd_metrics_bytes = smp_version ∷ smp_cmd_metrics ∷ []

unfoldable pub cmd_get_config_bytes : Bytes
cmd_get_config_bytes = smp_version ∷ smp_cmd_get_config ∷ []

unfoldable pub cmd_list_users_bytes : Bytes
cmd_list_users_bytes = smp_version ∷ smp_cmd_list_users ∷ []

unfoldable pub cmd_add_user_bytes : Bytes → Bytes → Option Bytes
cmd_add_user_bytes user pass =
    let ulen = length user in
    let plen = length pass in
    if ulen == 0 || ltb 255 ulen || plen == 0 || ltb 255 plen
    then none
    else some (smp_version ∷ smp_cmd_add_user ∷ ulen % 256 ∷ (user ++ (plen % 256 ∷ pass)))

unfoldable pub cmd_del_user_bytes : Bytes → Option Bytes
cmd_del_user_bytes user =
    let ulen = length user in
    if ulen == 0 || ltb 255 ulen
    then none
    else some (smp_version ∷ smp_cmd_del_user ∷ ulen % 256 ∷ user)

abbrev pub buffer_size_key : Bytes
buffer_size_key = b'b' ∷ b'u' ∷ b'f' ∷ b'f' ∷ b'e' ∷ b'r' ∷ b'-' ∷ b's' ∷ b'i' ∷ b'z' ∷ b'e' ∷ []

abbrev pub timeout_key : Bytes
timeout_key = b't' ∷ b'i' ∷ b'm' ∷ b'e' ∷ b'o' ∷ b'u' ∷ b't' ∷ []

abbrev pub auth_required_key : Bytes
auth_required_key =
    b'a' ∷ b'u' ∷ b't' ∷ b'h' ∷ b'-' ∷ b'r' ∷ b'e' ∷ b'q' ∷ b'u' ∷ b'i' ∷ b'r' ∷ b'e' ∷ b'd' ∷ []

-- The four bytes of `v`, most significant first.
abbrev pub client_u32 : ℕ → Bytes
client_u32 v = v / 2 ^ 24 % 256 ∷ v / 2 ^ 16 % 256 ∷ v / 2 ^ 8 % 256 ∷ v % 256 ∷ []

-- `n` is what `strtoul(value, NULL, 10)` returned.
unfoldable pub cmd_set_config_bytes : Bytes → ℕ → Option Bytes
cmd_set_config_bytes key n =
    if str_eq key buffer_size_key
    then some (smp_version ∷ smp_cmd_set_config ∷ smp_cfg_io_buffer_size ∷ client_u32 (n % 2 ^ 32))
    else if str_eq key timeout_key
    then some (smp_version ∷ smp_cmd_set_config ∷ smp_cfg_conn_timeout ∷ client_u32 (n % 2 ^ 32))
    else if str_eq key auth_required_key
    then some (
        smp_version
        ∷ smp_cmd_set_config
        ∷ smp_cfg_auth_required
        ∷ (if not (n == 0) then 1 else 0)
        ∷ [])
    else none
