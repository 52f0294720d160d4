-- ===== src/Socks5/Connect.antt =====
-- `start_connection` of src/socks5.c and what leads to it: the candidates, the attempts to reach
-- them, and the reply to the client.
use tpe2026c1_socks.Buffer.{Buffer, buffer_reset, buffer_write}
use tpe2026c1_socks.Buffer.Emit.{write_all}
use tpe2026c1_socks.Metrics.{metrics_connection_closed}
use tpe2026c1_socks.Net.{Interest, only_write, op_noop}
use tpe2026c1_socks.Parsers.Request.{atyp_ipv4, atyp_ipv6}
use tpe2026c1_socks.Prelude.{
  List, Option, [], get_elem?, if◌then◌else◌, length, ltb, none, replicate, some, suc, take, true,
  zero, ℕ, ◌%◌, ◌+◌, ◌-◌, ◌/◌, ◌==◌, ◌>>=◌, ◌^◌, ◌∷◌,
}
use tpe2026c1_socks.Socks5.State.{
  AddrInfo, Address, Attempt, Errno, Socks5, World, connect_failed, connected, errno_to_reply,
  in_progress, max_addrs, no_socket, not_nio, other_family, rep_host_unreachable, rep_success,
  request_connecting_state, request_write_state, resolved, sockaddr_in, sockaddr_in6,
}

-- The reply that the end of the list leaves: no longer success.
unfoldable pub exhausted : World → World
exhausted w =
    if w.s.reply == rep_success
    then record w { s = record (w.s) { reply = rep_host_unreachable } }
    else w

-- `s->addr_idx++` on a `uint8_t`, and the two that also note the cause.
unfoldable pub next_candidate : World → World
next_candidate w = record w { s = record (w.s) { addr_idx = (w.s.addr_idx + 1) % 256 } }

unfoldable pub failed_candidate : Errno → World → World
failed_candidate e w = record w {
  s = record (w.s) { reply = errno_to_reply e; addr_idx = (w.s.addr_idx + 1) % 256 };
}

-- A descriptor that `selector_register` took.
unfoldable pub register_origin : World → ℕ → Interest → World
register_origin w fd i = record w {
  s = record (w.s) { origin_fd = some fd; references = (w.s.references + 1) % 2 ^ 32 };
  origin_interest = some i;
}

unfoldable pub connected_now : World → ℕ → World
unfolding register_origin
connected_now w fd =
    let w' = register_origin w fd op_noop in record w' { s = record (w'.s) { reply = rep_success } }

-- `socket` gives the descriptor `fd`, and `close` takes it back.
unfoldable pub open_socket : ℕ → World → World
open_socket fd w = record w { origins = fd ∷ w.origins }

unfoldable pub close_fd : ℕ → List ℕ → List ℕ
close_fd fd [] = []
close_fd fd (n ∷ ns) = let rest = close_fd fd ns in if n == fd then ns else n ∷ rest

unfoldable pub close_socket : ℕ → World → World
unfolding close_fd
close_socket fd w = record w { origins = close_fd fd w.origins }

-- The body of the loop, on what becomes of the candidate; `next` is the next round.
unfoldable pub try_candidate : World → (World → Option (ℕ × World)) → Attempt → Option (ℕ × World)
try_candidate w next (no_socket e) = next (failed_candidate e w)
try_candidate w next (not_nio fd) = next (next_candidate (close_socket fd (open_socket fd w)))
try_candidate w next (connected fd registers) =
    let skip = next (next_candidate (close_socket fd (open_socket fd w))) in
    if registers then some (request_write_state, connected_now (open_socket fd w) fd) else skip
try_candidate w next (in_progress fd registers) =
    let skip = next (next_candidate (close_socket fd (open_socket fd w))) in
    if registers
    then some (request_connecting_state, register_origin (open_socket fd w) fd only_write)
    else skip
try_candidate w next (connect_failed fd e) =
    next (failed_candidate e (close_socket fd (open_socket fd w)))

-- The loop of `start_connection`, with fuel; `none` is the end of the fuel. A candidate is there
-- while `addr_idx < naddrs`.
unfoldable pub connect_loop : (ℕ → Address → Attempt) → ℕ → World → Option (ℕ × World)
connect_loop attempt zero w = none
connect_loop attempt (suc fuel) w =
    let next = connect_loop attempt fuel in
    elim (get_elem? w.s.addrs w.s.addr_idx) [
      | none ↦ some (request_write_state, exhausted w)
      | some a ↦ try_candidate w next (attempt w.s.addr_idx a)
    ]

-- One round for each candidate, and one for the last test.
unfoldable pub start_connection : (ℕ → Address → Attempt) → World → Option (ℕ × World)
start_connection attempt w = connect_loop attempt (suc (length w.s.addrs)) w

-- `socksv5_close`, which `selector_unregister_fd` calls once the descriptor is free; here for the
-- part that both descriptors share.
unfoldable pub socks5_destroy : World → World
socks5_destroy w = if w.s.resolving then w else record w { destroyed = true }

unfoldable pub socksv5_close : World → World
unfolding socks5_destroy
socksv5_close w =
    let r = if ltb 0 w.s.references then w.s.references - 1 else w.s.references in
    let w' = record w { s = record (w.s) { references = r } } in
    if r == 0
    then socks5_destroy
        (record w' { g = record (w.g) { metrics = metrics_connection_closed w.g.metrics } })
    else w'

-- `selector_unregister_fd` on the origin's descriptor, which is closed, and on the client's.
unfoldable pub unregister_origin : World → World
unfolding close_fd
unregister_origin w = socksv5_close (record w {
  origin_interest = none;
  origins = elim w.s.origin_fd [ none ↦ w.origins | some fd ↦ close_fd fd w.origins ];
})

unfoldable pub unregister_client : World → World
unregister_client w = socksv5_close (record w { client_interest = none })

-- The loop of `resolv_block` over the list, from `naddrs` candidates on.
unfoldable pub candidates : ℕ → List AddrInfo → List Address
candidates n [] = []
candidates n (resolved a ∷ ais) =
    let rest = candidates (n + 1) ais in if ltb n max_addrs then a ∷ rest else []
candidates n (other_family ∷ ais) =
    let rest = candidates n ais in if ltb n max_addrs then rest else []

unfoldable pub write_u16 : Buffer → ℕ → Option Buffer
write_u16 b p = do b1 ← buffer_write b (p / 256 % 256); buffer_write b1 (p % 256)

-- The address and the port at the end of a reply.
unfoldable pub write_bound : Option Address → Buffer → Option Buffer
unfolding write_u16
write_bound (some (sockaddr_in6 ip p)) b = do
  b1 ← buffer_write b atyp_ipv6
  b2 ← write_all (take 16 ip) b1
  write_u16 b2 p
write_bound (some (sockaddr_in ip p)) b = do
  b1 ← buffer_write b atyp_ipv4
  b2 ← write_all (take 4 ip) b1
  write_u16 b2 p
write_bound none b = do b1 ← buffer_write b atyp_ipv4; write_all (replicate 6 0) b1

-- Where the origin is bound, if the reply tells.
unfoldable pub local_address : Socks5 → ℕ → Option Address → Option Address
local_address s rep sockname =
    if rep == rep_success then elim s.origin_fd [ none ↦ none | some _ ↦ sockname ] else none

-- The bytes that `build_reply` writes.
unfoldable pub write_reply : ℕ → Option Address → Buffer → Option Buffer
write_reply rep local b = do
  b1 ← buffer_write b 0x05
  b2 ← buffer_write b1 rep
  b3 ← buffer_write b2 0x00
  write_bound local b3

unfoldable pub build_reply : Option Address → World → ℕ → Option World
build_reply sockname w rep = do
  b ← write_reply rep (local_address w.s rep sockname) (buffer_reset w.s.write_buffer)
  some (record w { s = record (w.s) { write_buffer = b } })
