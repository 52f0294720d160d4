-- ===== src/Socks5/Copy.antt =====
-- The relay of src/socks5.c.
use tpe2026c1_socks.Buffer.{
  Buffer, buffer_can_read, buffer_can_write, buffer_read_adv, buffer_read_ptr, buffer_write_adv,
  buffer_write_ptr,
}
use tpe2026c1_socks.Metrics.{metrics_add_received, metrics_add_sent}
use tpe2026c1_socks.Net.{
  Interest, RecvResult, SendResult, recv_again, recv_failed, send_again, send_failed, sent_bytes,
  received,
}
use tpe2026c1_socks.Pop3.{pop3_port, pop3_sniffer_feed}
use tpe2026c1_socks.Prelude.{
  Bool, Bytes, List, Option, [], false, if◌then◌else◌, length, none, not, pos, some, suc, true,
  zero, ℕ, ◌&&◌, ◌++◌, ◌+◌, ◌-◌, ◌==◌, ◌>>=◌, ◌∷◌,
}
use tpe2026c1_socks.Prelude.Memory.{store, window}
use tpe2026c1_socks.Socks5.Negotiate.{wrote}
use tpe2026c1_socks.Socks5.Request.{client_interested, origin_interested, shown_user}
use tpe2026c1_socks.Socks5.State.{
  Kernel, LogEntry, Socks5, World, copy_state, done_state, pop3_entry,
}

-- Which descriptor a handler is called for.
pub data Side : Type 0 where
  client_side origin_side : Side

-- `copy_compute_interests`
unfoldable pub copy_interests : Socks5 → Interest × Interest
copy_interests s = (
  record {
    op_read = not s.client_eof && buffer_can_write s.read_buffer;
    op_write = buffer_can_read s.write_buffer;
  },
  record {
    op_read = not s.origin_eof && buffer_can_write s.write_buffer;
    op_write = buffer_can_read s.read_buffer;
  },
)

unfoldable pub copy_compute_interests : World → World
copy_compute_interests w =
    let (cif, oif) = copy_interests w.s in origin_interested (client_interested w cif) oif

unfoldable pub copy_arrival : World → World
copy_arrival w = copy_compute_interests (record w {
  s = record (w.s) {
    client_eof = false;
    origin_eof = false;
    client_wr_shut = false;
    origin_wr_shut = false;
    sniff_pop3 = w.s.dest_port == pop3_port && w.g.config.pop3_sniff;
  };
})

-- `on_pop3_credential`, for each pair that the sniffer finds.
unfoldable pub log_credentials : Socks5 → List (Bytes × Bytes) → List LogEntry
log_credentials s [] = []
log_credentials s ((user, pass) ∷ found) =
    pop3_entry (shown_user s) s.client_addr s.dest_host s.dest_port user pass
    ∷ log_credentials s found

-- The two half-closes of `copy_update`, each made once.
unfoldable pub shut_origin : Socks5 → Socks5
shut_origin s =
    if s.client_eof && not (buffer_can_read s.read_buffer) && not s.origin_wr_shut
    then record s { origin_wr_shut = true }
    else s

unfoldable pub shut_client : Socks5 → Socks5
shut_client s =
    if s.origin_eof && not (buffer_can_read s.write_buffer) && not s.client_wr_shut
    then record s { client_wr_shut = true }
    else s

-- Both directions have ended and are drained.
unfoldable pub copy_done : Socks5 → Bool
copy_done s =
    (s.client_eof && not (buffer_can_read s.read_buffer))
    && (s.origin_eof && not (buffer_can_read s.write_buffer))

unfoldable pub copy_update : World → ℕ × World
copy_update w =
    let w' = record w { s = shut_client (shut_origin w.s) } in
    if copy_done w'.s then (done_state, w') else (copy_state, copy_compute_interests w')

-- What one `send` at `off` leaves; `next` is the next round of the loop.
unfoldable pub pump_step :
    Buffer
    → ℕ
    → (Buffer → Option (Bool × Buffer × Bytes))
    → SendResult
    → Option (Bool × Buffer × Bytes)
pump_step b off next send_again = some (false, b, [])
pump_step b off next send_failed = some (true, b, [])
pump_step b off next (sent_bytes n) =
    let rest = (do
      b' ← buffer_read_adv b (pos n)
      (e, c, bs) ← next b'
      some (e, c, window b.storage off n ++ bs)) in
    if n == 0 then some (true, b, []) else rest

-- The loop of `copy_pump` from its i-th call of `send` on, with fuel; `none` is an abort or the end
-- of the fuel. It returns the result, the buffer and the bytes that were sent.
unfoldable pub pump_loop : (ℕ → ℕ → SendResult) → ℕ → ℕ → Buffer → Option (Bool × Buffer × Bytes)
pump_loop send zero i b = none
pump_loop send (suc fuel) i b =
    let next = pump_loop send fuel (i + 1) in
    let round = (do (off, n) ← buffer_read_ptr b; pump_step b off next (send i n)) in
    if buffer_can_read b then round else some (false, b, [])

-- Each round but the last sends a byte at least.
unfoldable pub copy_pump : (ℕ → ℕ → SendResult) → Buffer → Option (Bool × Buffer × Bytes)
copy_pump send b = pump_loop send (suc (b.write - b.read)) 0 b

-- `copy_pump` towards the origin and towards the client, then `copy_update` unless it failed.
unfoldable pub pump_to_origin : (ℕ → ℕ → SendResult) → World → Option (ℕ × World)
pump_to_origin send w = do
  (failed, rb, bs) ← copy_pump send w.s.read_buffer
  let w' = record w { s = record (w.s) { read_buffer = rb }; to_origin = w.to_origin ++ bs }
  some (if failed then (done_state, w') else copy_update w')

unfoldable pub pump_to_client : (ℕ → ℕ → SendResult) → World → Option (ℕ × World)
pump_to_client send w = do
  (failed, wb, bs) ← copy_pump send w.s.write_buffer
  let w' = wrote w wb bs
  some (if failed then (done_state, w') else copy_update w')

-- `pop3_sniffer_feed` on the bytes of the client, if the port and the configuration ask for it.
unfoldable pub sniff : World → Bytes → Option World
sniff w bs =
    if w.s.sniff_pop3
    then (do
      (p, found) ← pop3_sniffer_feed w.s.pop3 bs
      some (record w { s = record (w.s) { pop3 = p }; log = w.log ++ log_credentials w.s found }))
    else some w

-- The branch of `copy_read` for bytes of the client, stored at `off`.
unfoldable pub client_bytes : Kernel → World → ℕ → Bytes → Option (ℕ × World)
client_bytes k w off bs = do
  d ← store w.s.read_buffer.storage off bs
  rb ← buffer_write_adv (record (w.s.read_buffer) { storage = d }) (pos (length bs))
  w' ←
      sniff
        (record w {
          s = record (w.s) { read_buffer = rb };
          g = record (w.g) { metrics = metrics_add_sent w.g.metrics (length bs) };
        })
        bs
  pump_to_origin k.send w'

unfoldable pub client_ended : World → ℕ × World
client_ended w = copy_update (record w { s = record (w.s) { client_eof = true } })

unfoldable pub client_data : Kernel → World → ℕ → RecvResult → Option (ℕ × World)
client_data k w off recv_again = some (copy_update w)
client_data k w off recv_failed = some (client_ended w)
client_data k w off (received bs) =
    if length bs == 0 then some (client_ended w) else client_bytes k w off bs

-- The branch of `copy_read` for bytes of the origin.
unfoldable pub origin_bytes : Kernel → World → ℕ → Bytes → Option (ℕ × World)
origin_bytes k w off bs = do
  d ← store w.s.write_buffer.storage off bs
  wb ← buffer_write_adv (record (w.s.write_buffer) { storage = d }) (pos (length bs))
  pump_to_client k.send (record w {
    s = record (w.s) { write_buffer = wb };
    g = record (w.g) { metrics = metrics_add_received w.g.metrics (length bs) };
  })

unfoldable pub origin_ended : World → ℕ × World
origin_ended w = copy_update (record w { s = record (w.s) { origin_eof = true } })

unfoldable pub origin_data : Kernel → World → ℕ → RecvResult → Option (ℕ × World)
origin_data k w off recv_again = some (copy_update w)
origin_data k w off recv_failed = some (origin_ended w)
origin_data k w off (received bs) =
    if length bs == 0 then some (origin_ended w) else origin_bytes k w off bs

-- Where there is no space, `recv` is not called.
unfoldable pub copy_read : Side → Kernel → World → Option (ℕ × World)
copy_read client_side k w = do
  (off, space) ← buffer_write_ptr w.s.read_buffer
  if space == 0 then some (copy_update w) else client_data k w off k.recv
copy_read origin_side k w = do
  (off, space) ← buffer_write_ptr w.s.write_buffer
  if space == 0 then some (copy_update w) else origin_data k w off k.recv

unfoldable pub copy_write : Side → Kernel → World → Option (ℕ × World)
copy_write client_side k w = pump_to_client k.send w
copy_write origin_side k w = pump_to_origin k.send w
