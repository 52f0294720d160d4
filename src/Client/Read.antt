-- ===== src/Client/Read.antt =====
-- The numbers that the client reads from the responses of src/mgmt.c.
use tpe2026c1_socks.Users.Table
use tpe2026c1_socks.Users.Names.{users_name_at-names}
use tpe2026c1_socks.Client.Transport.{
  Call, got, get_from, do_request, get_u16, Response, get_u64, metrics_printed, recv_exact,
  config_printed, get_u32,
}
use tpe2026c1_socks.Client.Receive.{Enough, recv_exact_lem}
use tpe2026c1_socks.Mgmt.Bytes.{be64, header, metrics_bytes, be32, config_bytes}
use tpe2026c1_socks.Prelude.{
  Bytes, arith, ℕ, ◌%◌, ◌*◌, ◌++◌, ◌+◌, ◌/◌, ◌<◌, ◌^◌, ◌≡◌, List, length, length-append, ltb, true,
  subst, [], drop-append, if◌then◌else◌, refl, some, take-append, ◌∙◌, ◌∷◌, Bool, false, not, ◌==◌,
}
use mathlib.Core.Path.{ap₂}
use tpe2026c1_socks.Metrics.{Metrics, metrics_bytes_transferred}
use tpe2026c1_socks.Smp.{smp_cmd_metrics, smp_ok, smp_cmd_get_config}
use tpe2026c1_socks.Users.{User, users_count}
use tpe2026c1_socks.Config.{ProxyConfig}

u32_back :
    (v : ℕ)
    → v < 2 ^ 32
    → (v / 2 ^ 24 % 256) * 2 ^ 24
        + (v / 2 ^ 16 % 256) * 2 ^ 16
        + (v / 2 ^ 8 % 256) * 2 ^ 8
        + v / 2 ^ 0 % 256
      ≡ v
u32_back v h = omega arith

u64_back : (v : ℕ) → v < 2 ^ 64 → (rest : Bytes) → get_from 8 0 (be64 v ++ rest) ≡ v
unfolding get_from
u64_back v h rest = omega arith

-- The two receptions of `do_request`.
do_request_step :
    (cmd st : ℕ) (d rest : Bytes) (cs cs1 cs2 : List Call)
    → length d < 2 ^ 16
    → recv_exact 5 (header cmd st (length d) ++ (d ++ rest)) cs
      ≡ got (header cmd st (length d)) (d ++ rest) cs1
    → (if ltb 0 (length d) then recv_exact (length d) (d ++ rest) cs1 else got [] (d ++ rest) cs1)
      ≡ got d rest cs2
    → do_request (header cmd st (length d) ++ (d ++ rest)) cs
      ≡ got (record { cmd = cmd; status = st; datalen = length d; data_bytes = d }) rest cs2
unfolding do_request get_u16
do_request_step cmd st d rest cs cs1 cs2 small q1 q2 =
    let n : (length d / 2 ^ 8 % 256) * 2 ^ 8 + length d % 256 ≡ length d = omega arith in
    rw (q1, n, q2) refl

data_received :
    (d rest : Bytes) (cs : List Call)
    → Enough (length d) cs
    → (cs' : List Call) × ((if ltb 0 (length d)
          then recv_exact (length d) (d ++ rest) cs
          else got [] (d ++ rest) cs)
        ≡ got d rest cs')
data_received [] rest cs h = (cs, refl)
data_received (x ∷ d) rest cs h =
    let z : length (x ∷ d) ≡ length (x ∷ d) + 0 = omega arith in
    let (cs', q, _) =
      recv_exact_lem cs (length (x ∷ d)) 0 ((x ∷ d) ++ rest)
        (omega (arith, length-append (x ∷ d) rest)) (subst (λ k. Enough k cs) z h) in
    let t : ltb 0 (length (x ∷ d)) ≡ true = ground arith in
    (
      cs',
      rw t (
          q
          ∙ ap₂ (λ a b. got a b cs') (take-append (x ∷ d) rest (length (x ∷ d)) refl)
              (drop-append (x ∷ d) rest (length (x ∷ d)) refl)),
    )

-- `do_request`, on a stream that begins with a header of the server and the data that it counts,
-- with calls enough for them, returns the command, the status and the data, however the stream is
-- cut, and leaves what follows.
pub do_request_lem :
    (cmd st : ℕ) (d rest : Bytes) (cs : List Call)
    → length d < 2 ^ 16
    → Enough (5 + length d) cs
    → (cs' : List Call) × (do_request (header cmd st (length d) ++ (d ++ rest)) cs
        ≡ got (record { cmd = cmd; status = st; datalen = length d; data_bytes = d }) rest cs')
do_request_lem cmd st d rest cs small h =
    let (cs1, q1, h1) =
      recv_exact_lem cs 5 (length d) (header cmd st (length d) ++ (d ++ rest))
        (omega (arith, length-append d rest)) h in
    let (cs2, q2) = data_received d rest cs1 h1 in
    (cs2, do_request_step cmd st d rest cs cs1 cs2 small q1 q2)

-- A client that receives the server's answer to METRICS prints the server's counters, however the
-- stream is cut, where each fits 64 bits.
pub metrics_read :
    (m : Metrics) (db : List User) (rest : Bytes) (cs : List Call)
    → m.historic_connections < 2 ^ 64
    → m.current_connections < 2 ^ 64
    → m.failed_connections < 2 ^ 64
    → m.bytes_sent < 2 ^ 64
    → m.bytes_received < 2 ^ 64
    → Table.IsValid db
    → Enough 61 cs
    → (r : Response) × (cs' : List Call) × (do_request (metrics_bytes m db ++ rest) cs
        ≡ got r rest cs')
      × (metrics_printed r
          ≡ some (
              m.historic_connections
              ∷ m.current_connections
              ∷ metrics_bytes_transferred m
              ∷ m.failed_connections
              ∷ users_count db
              ∷ m.bytes_sent
              ∷ m.bytes_received
              ∷ []))
unfolding metrics_printed get_u64 metrics_bytes_transferred
metrics_read m db rest cs a b c d e v h =
    let data_part : Bytes =
      be64 m.historic_connections
      ++ (be64 m.current_connections
          ++ (be64 (metrics_bytes_transferred m)
              ++ (be64 m.failed_connections
                  ++ (be64 (users_count db) ++ (be64 m.bytes_sent ++ be64 m.bytes_received))))) in
    let (cs', q) = do_request_lem smp_cmd_metrics smp_ok data_part rest cs (omega arith) h in
    let few : users_count db < 2 ^ 64 = omega (arith, (users_name_at-names db v).0) in
    (
      record { cmd = smp_cmd_metrics; status = smp_ok; datalen = 56; data_bytes = data_part },
      cs',
      q,
      rw
          (
            u64_back m.historic_connections a,
            u64_back m.current_connections b,
            u64_back (metrics_bytes_transferred m) (omega arith),
            u64_back m.failed_connections c,
            u64_back (users_count db) few,
            u64_back m.bytes_sent d,
            u64_back m.bytes_received e,
          )
          refl,
    )

-- A client that receives the server's answer to GET_CONFIG prints the server's configuration, where
-- the two numbers fit 32 bits, however the stream is cut.
pub config_read :
    (c : ProxyConfig) (rest : Bytes) (cs : List Call)
    → c.io_buffer_size < 2 ^ 32
    → c.conn_timeout_secs < 2 ^ 32
    → Enough 14 cs
    → (r : Response) × (cs' : List Call) × (do_request (config_bytes c ++ rest) cs ≡ got r rest cs')
      × (config_printed r ≡ some (c.io_buffer_size, c.conn_timeout_secs, c.auth_required))
unfolding config_printed get_u32
config_read c rest cs a b h =
    let io : c.io_buffer_size % 2 ^ 32 ≡ c.io_buffer_size = omega arith in
    let flag : ℕ = if c.auth_required then 1 else 0 in
    let data_part : Bytes =
      be32 (c.io_buffer_size % 2 ^ 32) ++ (be32 c.conn_timeout_secs ++ flag ∷ []) in
    let (cs', q) = do_request_lem smp_cmd_get_config smp_ok data_part rest cs (omega arith) h in
    (
      record { cmd = smp_cmd_get_config; status = smp_ok; datalen = 9; data_bytes = data_part },
      cs',
      q,
      rw
          (
            io,
            u32_back c.io_buffer_size a,
            u32_back c.conn_timeout_secs b,
            flag_back c.auth_required,
          )
          refl,
    )
  where
    flag_back : (t : Bool) → not ((if t then 1 else 0) == 0) ≡ t
    flag_back true = refl
    flag_back false = refl
