-- ===== src/Socks5/Life.antt =====
-- How a connection of src/socks5.c begins and what becomes of its memory: `socks5_new`, the pool of
-- freed connections, and `socksv5_passive_accept`.
use tpe2026c1_socks.Buffer.{buffer_init}
use tpe2026c1_socks.Config.{ProxyConfig, config_min_buffer}
use tpe2026c1_socks.Metrics.{metrics_connection_opened}
use tpe2026c1_socks.Mgmt.Process.{Shared}
use tpe2026c1_socks.Net.{only_read}
use tpe2026c1_socks.Parsers.Auth.{auth_parser_init, auth_version}
use tpe2026c1_socks.Parsers.Hello.{hello_parser_init, hello_version}
use tpe2026c1_socks.Parsers.Request.{req_version, request_parser_init}
use tpe2026c1_socks.Pop3.{line_size, pop3_sniffer_init}
use tpe2026c1_socks.Prelude.{
  Bool, Bytes, List, Option, [], false, if◌then◌else◌, ltb, none, not, replicate, some, ℕ, ◌%◌, ◌+◌,
  ◌-◌, ◌==◌, ◌>>=◌, ◌^◌, ◌∷◌,
}
use tpe2026c1_socks.Socks5.State.{Address, Socks5, World, rep_success}

abbrev pub max_pool : ℕ
max_pool = 128

-- What a freed connection keeps: its two storages, if it has them, and their size.
pub record Pooled : Type 0 where
  pub raw : Option (Bytes × Bytes)
  pub buffer_size : ℕ

-- `pool` and `pool_size`.
pub record Pool : Type 0 where
  pub entries : List Pooled
  pub pool_size : ℕ

-- What the calls of `socksv5_passive_accept` return: the address that `accept` gives, whether
-- `selector_fd_set_nio` succeeds, whether `calloc` does, what the two calls of `malloc` give, and
-- whether `selector_register` succeeds.
pub record Arrival : Type 0 where
  pub accepts : Option Address
  pub sets_nio : Bool
  pub callocs : Bool
  pub mallocs : Option Bytes × Option Bytes
  pub registers : Bool

-- The memory of a connection: from the pool, or from `calloc`.
unfoldable pub take_pooled : Arrival → List Pooled → ℕ → Option Pooled × Pool
take_pooled a (p ∷ ps) n = (some p, record { entries = ps; pool_size = (n + 2 ^ 32 - 1) % 2 ^ 32 })
take_pooled a [] n = (
  if a.callocs then some (record { raw = none; buffer_size = 0 }) else none,
  record { entries = []; pool_size = n },
)

unfoldable pub wanted_size : ProxyConfig → ℕ
wanted_size cfg =
    if ltb cfg.io_buffer_size config_min_buffer then config_min_buffer else cfg.io_buffer_size

unfoldable pub allocated : ℕ → Option Bytes × Option Bytes → Option (Bytes × Bytes × ℕ)
allocated want (some r, some w) = some (r, w, want)
allocated want _ = none

-- The two storages: those of the pool where their size is the wanted one, and else new ones.
unfoldable pub storages_of :
    ℕ → Option (Bytes × Bytes) → ℕ → Option Bytes × Option Bytes → Option (Bytes × Bytes × ℕ)
unfolding allocated
storages_of want none size mallocs = allocated want mallocs
storages_of want (some (r, w)) size mallocs =
    if not (size == want) then allocated want mallocs else some (r, w, size)

-- The arrays of a connection whose bytes `memset` or `calloc` cleared.
abbrev pub zeros : ℕ → Bytes
zeros n = replicate n 0

-- The end of `socks5_new`, behind the allocations.
unfoldable pub initial : Address → Bytes × Bytes × ℕ → Socks5
initial addr (r, w, size) = record {
  client_addr = addr;
  origin_fd = none;
  hello =
      hello_parser_init
        (record { state = hello_version; remaining = 0; has_noauth = false; has_userpass = false });
  auth = auth_parser_init (record {
    state = auth_version;
    ulen = 0;
    plen = 0;
    idx = 0;
    username = zeros 256;
    password = zeros 256;
  });
  request = request_parser_init (record {
    state = req_version;
    cmd = 0;
    atyp = 0;
    addr_len = 0;
    idx = 0;
    addr = zeros 256;
    port = 0;
    port_idx = 0;
  });
  method = 0;
  auth_ok = false;
  username = [];
  addrs = [];
  addr_idx = 0;
  resolving = false;
  dest_host = [];
  dest_port = 0;
  reply = rep_success;
  client_eof = false;
  origin_eof = false;
  client_wr_shut = false;
  origin_wr_shut = false;
  sniff_pop3 = false;
  pop3 =
      pop3_sniffer_init (record {
        line = zeros line_size;
        len = 0;
        overflow = false;
        user = [];
        have_user = false;
      });
  read_buffer = buffer_init size r;
  write_buffer = buffer_init size w;
  references = 0;
}

-- `socks5_new`: the connection, none where an allocation fails, and the pool.
unfoldable pub socks5_new : Arrival → Address → ProxyConfig → Pool → Option Socks5 × Pool
socks5_new a addr cfg pool =
    let (p, rest) = take_pooled a pool.entries pool.pool_size in
    (
      do
        q ← p
        m ← storages_of (wanted_size cfg) q.raw q.buffer_size a.mallocs
        some (initial addr m),
      rest,
    )

-- The part of `socks5_destroy` behind the test of `resolving`.
unfoldable pub recycle : Pool → Socks5 → Pool
recycle pool s =
    if ltb pool.pool_size max_pool
    then record {
      entries =
          record {
            raw = some (s.read_buffer.storage, s.write_buffer.storage);
            buffer_size = s.read_buffer.limit;
          }
          ∷ pool.entries;
      pool_size = (pool.pool_size + 1) % 2 ^ 32;
    }
    else pool

-- A new connection, registered for reading.
abbrev pub new_world : Socks5 → Shared → World
new_world s g = record {
  s = record s { references = 1 };
  g = g;
  client_interest = some only_read;
  origin_interest = none;
  to_client = [];
  to_origin = [];
  log = [];
  required = false;
  checked = [];
  origins = [];
  destroyed = false;
}

-- The end of `socksv5_passive_accept`, with the connection that `socks5_new` made.
unfoldable pub accepted_as : Arrival → Shared → Option Socks5 × Pool → Option World × Shared × Pool
accepted_as a g (none, pool) = (none, g, pool)
accepted_as a g (some s, pool) =
    let g' = record g { metrics = metrics_connection_opened g.metrics } in
    if not a.registers then (none, g, recycle pool s) else (some (new_world s g'), g', pool)

unfoldable pub accept_from : Arrival → Shared → Pool → Option Address → Option World × Shared × Pool
accept_from a g pool none = (none, g, pool)
accept_from a g pool (some addr) =
    if not a.sets_nio then (none, g, pool) else accepted_as a g (socks5_new a addr g.config pool)

unfoldable pub socksv5_passive_accept : Arrival → Shared → Pool → Option World × Shared × Pool
socksv5_passive_accept a g pool = accept_from a g pool a.accepts
