-- ===== src/Socks5/Request.antt =====
-- The request of src/socks5.c, from its bytes to the reply.
use tpe2026c1_socks.Buffer.{buffer_can_read}
use tpe2026c1_socks.Metrics.{metrics_connection_failed}
use tpe2026c1_socks.Net.{Interest, SendResult, only_write, op_noop}
use tpe2026c1_socks.Parsers.Request.{
  atyp_domain, atyp_ipv4, atyp_ipv6, cmd_connect, request_parser_consume,
}
use tpe2026c1_socks.Prelude.{
  Bytes, List, Option, [], false, if◌then◌else◌, length, none, not, some, take, true, ℕ, ◌%◌, ◌++◌,
  ◌+◌, ◌==◌, ◌>>=◌, ◌∷◌, Bool,
}
use tpe2026c1_socks.Prelude.Text.{c_string}
use tpe2026c1_socks.Socks5.Connect.{build_reply, candidates, start_connection, unregister_origin}
use tpe2026c1_socks.Socks5.Negotiate.{wrote}
use tpe2026c1_socks.Socks5.State.{
  AddrInfo, Address, Errno, Input, Kernel, Output, Socks5, World, access_entry, copy_state,
  done_state, errno_to_reply, error_state, input_ended, no_error, no_input, no_output,
  output_failed, rep_atyp_not_supported, rep_command_not_supported, rep_general_failure,
  rep_host_unreachable, rep_success, request_read_state, request_resolv_state, request_write_state,
  send_out, set_interest, sockaddr_in, sockaddr_in6, take_in, input, output,
}

-- A single candidate from the bytes of the request, and the attempt to reach it.
unfoldable pub connect_to : Kernel → World → Address → Option (ℕ × World)
connect_to k w a =
    start_connection k.attempt
      (record w { s = record (w.s) { addrs = a ∷ []; addr_idx = 0; dest_host = k.ntop a } })

unfoldable pub refuse : World → ℕ → Option (ℕ × World)
refuse w rep = some (request_write_state, record w { s = record (w.s) { reply = rep } })

-- The branch for a name: the resolver's thread is started, if it can be.
unfoldable pub resolve : Kernel → World → Option (ℕ × World)
unfolding refuse
resolve k w =
    let w' = record w { s = record (w.s) { dest_host = take 255 (c_string w.s.request.addr) } } in
    if k.thread_starts
    then some (request_resolv_state, record w' { s = record (w'.s) { resolving = true } })
    else refuse w' rep_general_failure

unfoldable pub process_request : Kernel → World → Option (ℕ × World)
process_request k w =
    let w' = record w { s = record (w.s) { dest_port = w.s.request.port } } in
    let ipv4 = connect_to k w' (sockaddr_in (take 4 w.s.request.addr) w.s.request.port) in
    let ipv6 = connect_to k w' (sockaddr_in6 (take 16 w.s.request.addr) w.s.request.port) in
    if not (w.s.request.cmd == cmd_connect)
    then refuse w rep_command_not_supported
    else if w.s.request.atyp == atyp_ipv4
    then ipv4
    else if w.s.request.atyp == atyp_ipv6
    then ipv6
    else if w.s.request.atyp == atyp_domain
    then resolve k w'
    else refuse w' rep_atyp_not_supported

-- The result of `selector_set_interest` is not looked at.
unfoldable pub client_interested : World → Interest → World
unfolding set_interest
client_interested w i = record w { client_interest = (set_interest w.client_interest i).0 }

unfoldable pub origin_interested : World → Interest → World
unfolding set_interest
origin_interested w i = record w { origin_interest = (set_interest w.origin_interest i).0 }

unfoldable pub request_input : Kernel → World → Input → Option (ℕ × World)
request_input k w no_input = some (request_read_state, w)
request_input k w input_ended = some (error_state, w)
request_input k w (input rb) = do
  (done, p, rb', error) ← request_parser_consume w.s.request rb false
  let w' = record w { s = record (w.s) { request = p; read_buffer = rb' } }
  let w2 = client_interested w' op_noop
  if not done
      then some (request_read_state, w')
      else if error
      then refuse w2 rep_general_failure
      else process_request k w2

unfoldable pub request_read : Kernel → World → Option (ℕ × World)
request_read k w = do i ← take_in w.s.read_buffer k.recv; request_input k w i

unfoldable pub resolv_arrival : World → World
unfolding client_interested
resolv_arrival w = client_interested w op_noop

-- `resolv_block`, on the list of the resolver.
unfoldable pub resolved_to : Kernel → World → Option (List AddrInfo) → Option (ℕ × World)
resolved_to k w none = refuse w rep_host_unreachable
resolved_to k w (some ais) =
    let w' = record w { s = record (w.s) { addrs = candidates 0 ais; addr_idx = 0 } } in
    if length (candidates 0 ais) == 0
    then refuse w' rep_host_unreachable
    else start_connection k.attempt w'

unfoldable pub resolv_block : Kernel → World → Option (ℕ × World)
unfolding resolved_to
resolv_block k w = resolved_to k (record w { s = record (w.s) { resolving = false } }) k.addrinfo

-- Behind the failure of the attempt: the origin is closed, and the next candidate is tried.
unfoldable pub connecting_failed : World → Errno → World
connecting_failed w e =
    let w1 = unregister_origin (record w { s = record (w.s) { reply = errno_to_reply e } }) in
    record w1 { s = record (w1.s) { origin_fd = none; addr_idx = (w1.s.addr_idx + 1) % 256 } }

-- `error == 0`
abbrev pub is_clear : Errno → Bool
is_clear no_error = true
is_clear _ = false

unfoldable pub connecting_write : Kernel → World → Option (ℕ × World)
connecting_write k w =
    let retry = start_connection k.attempt (connecting_failed w k.so_error) in
    if is_clear k.so_error
    then some (request_write_state, record w { s = record (w.s) { reply = rep_success } })
    else retry

-- The call on the origin's descriptor, where there is one.
unfoldable pub quiet_origin : World → World
unfolding origin_interested
quiet_origin w = elim w.s.origin_fd [ none ↦ w | some _ ↦ origin_interested w op_noop ]

unfoldable pub request_write_arrival : Kernel → World → Option World
request_write_arrival k w = do
  w1 ← build_reply k.sockname w w.s.reply
  some (client_interested (quiet_origin w1) only_write)

-- `s->username[0] ? s->username : "-"`
unfoldable pub shown_user : Socks5 → Bytes
shown_user s = elim s.username [ [] ↦ b'-' ∷ [] | u ↦ u ]

-- Behind a whole reply to the request.
unfoldable pub request_sent : World → ℕ × World
unfolding shown_user
request_sent w =
    let s = w.s in
    let e = access_entry (shown_user s) s.client_addr s.dest_host s.dest_port s.reply in
    let w' = record w { log = w.log ++ e ∷ [] } in
    if not (s.reply == rep_success)
    then (
      done_state,
      record w' { g = record (w.g) { metrics = metrics_connection_failed w.g.metrics } },
    )
    else (copy_state, w')

unfoldable pub request_output : World → Output → ℕ × World
request_output w no_output = (request_write_state, w)
request_output w output_failed = (error_state, w)
request_output w (output wb bs) =
    let w' = wrote w wb bs in
    if buffer_can_read wb then (request_write_state, w') else request_sent w'

unfoldable pub request_write : (ℕ → ℕ → SendResult) → World → Option (ℕ × World)
request_write send w = do o ← send_out w.s.write_buffer send; some (request_output w o)
