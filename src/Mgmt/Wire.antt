-- ===== src/Mgmt/Wire.antt =====
-- The responses of src/mgmt.c, written to a buffer in big-endian order.
use tpe2026c1_socks.Buffer.{Buffer, buffer_write}
use tpe2026c1_socks.Buffer.Emit.{write_all}
use tpe2026c1_socks.Config.{ProxyConfig}
use tpe2026c1_socks.Metrics.{Metrics, metrics_bytes_transferred}
use tpe2026c1_socks.Prelude.{
  List, Option, if◌then◌else◌, length, some, suc, zero, ℕ, ◌%◌, ◌*◌, ◌+◌, ◌/◌, ◌>>=◌, ◌^◌,
}
use tpe2026c1_socks.Smp.{
  smp_cmd_get_config, smp_cmd_list_users, smp_cmd_metrics, smp_ok, smp_version,
}
use tpe2026c1_socks.Users.{User, users_count, users_name_at}

-- `(uint8_t)(v >> s)`.
abbrev pub byte_of : ℕ → ℕ → ℕ
byte_of v s = v / 2 ^ s % 256

unfoldable pub put_u16 : ℕ → Buffer → Option Buffer
put_u16 v b = do b1 ← buffer_write b (byte_of v 8); buffer_write b1 (v % 256)

unfoldable pub put_u32 : ℕ → Buffer → Option Buffer
put_u32 v b = do
  b1 ← buffer_write b (byte_of v 24)
  b2 ← buffer_write b1 (byte_of v 16)
  b3 ← buffer_write b2 (byte_of v 8)
  buffer_write b3 (byte_of v 0)

-- The loop of `put_u64`, with `n` bytes left.
unfoldable pub put_from : ℕ → ℕ → Buffer → Option Buffer
put_from zero v b = some b
put_from (suc i) v b = buffer_write b (byte_of v (i * 8)) >>= put_from i v

unfoldable pub put_u64 : ℕ → Buffer → Option Buffer
unfolding put_from
put_u64 v b = put_from 8 v b

unfoldable pub resp_header : ℕ → ℕ → ℕ → Buffer → Option Buffer
resp_header cmd status datalen b = do
  b1 ← buffer_write b smp_version
  b2 ← buffer_write b1 cmd
  b3 ← buffer_write b2 status
  put_u16 datalen b3

unfoldable pub resp_simple : ℕ → ℕ → Buffer → Option Buffer
unfolding resp_header
resp_simple cmd status b = resp_header cmd status 0 b

unfoldable pub resp_metrics : Metrics → List User → Buffer → Option Buffer
resp_metrics m db b = do
  b0 ← resp_header smp_cmd_metrics smp_ok 56 b
  b1 ← put_u64 m.historic_connections b0
  b2 ← put_u64 m.current_connections b1
  b3 ← put_u64 (metrics_bytes_transferred m) b2
  b4 ← put_u64 m.failed_connections b3
  b5 ← put_u64 (users_count db) b4
  b6 ← put_u64 m.bytes_sent b5
  put_u64 m.bytes_received b6

unfoldable pub resp_get_config : ProxyConfig → Buffer → Option Buffer
resp_get_config c b = do
  b0 ← resp_header smp_cmd_get_config smp_ok 9 b
  b1 ← put_u32 (c.io_buffer_size % 2 ^ 32) b0
  b2 ← put_u32 c.conn_timeout_secs b1
  buffer_write b2 (if c.auth_required then 1 else 0)

-- The loop that adds up `datalen`, a `uint32_t`, from index `i` with `n` names left; `strlen` of
-- NULL is a fault.
unfoldable pub datalen_from : List User → ℕ → ℕ → ℕ → Option ℕ
datalen_from db zero i datalen = some datalen
datalen_from db (suc n) i datalen = do
  name ← users_name_at db i
  datalen_from db n (i + 1) ((datalen + 1 + length name % 2 ^ 32) % 2 ^ 32)

-- The loop that writes the names.
unfoldable pub names_from : List User → ℕ → ℕ → Buffer → Option Buffer
unfolding write_all
names_from db zero i b = some b
names_from db (suc n) i b = do
  name ← users_name_at db i
  b1 ← buffer_write b (length name % 256)
  b2 ← write_all name b1
  names_from db n (i + 1) b2

unfoldable pub resp_list_users : List User → Buffer → Option Buffer
unfolding datalen_from names_from
resp_list_users db b = do
  let count = users_count db
  datalen ← datalen_from db count 0 2
  b1 ← resp_header smp_cmd_list_users smp_ok (datalen % 2 ^ 16) b
  b2 ← put_u16 (count % 2 ^ 16) b1
  names_from db count 0 b2
