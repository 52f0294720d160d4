-- ===== src/Socks5/Tests.antt =====
-- A session with the proxy of src/socks5.c: accepted, greeted, connected and relayed.
use tpe2026c1_socks.Socks5.Connect.{
  open_socket, build_reply, connect_loop, connected_now, local_address, start_connection,
  try_candidate, write_reply, write_bound,
}
use tpe2026c1_socks.Socks5.Accept.{IsValid, Gives}
use tpe2026c1_socks.Socks5.Reach.{accepted, served, IsSound, Reaches, handle_event_lem}
use tpe2026c1_socks.Mgmt.Process.{Shared}
use tpe2026c1_socks.Net.{RecvResult, sent_bytes, received, Interest, only_read, only_write}
use tpe2026c1_socks.Prelude.{
  Option, [], false, none, refl, replicate, some, true, ◌∷◌, ◌≡◌, ap, arith, length-replicate, sym,
  ℕ, ◌∙◌,
}
use tpe2026c1_socks.Socks5.Copy.{client_side, copy_arrival, copy_compute_interests, copy_interests}
use tpe2026c1_socks.Socks5.Life.{
  Arrival, Pool, initial, new_world, accept_from, accepted_as, socks5_new, socksv5_passive_accept,
  storages_of, take_pooled, wanted_size,
}
use tpe2026c1_socks.Socks5.State.{
  Address, Kernel, connected, no_error, sockaddr_in, set_interest, take_in, copy_state, rep_success,
  request_read_state, send_out,
}
use tpe2026c1_socks.Socks5.Table.{
  Connection, handle_event, read_ready, write_ready, finish, machine, states,
}
use tpe2026c1_socks.Buffer.{
  buffer_can_read, buffer_init, buffer_read, buffer_read_adv, buffer_reset, buffer_write,
  buffer_write_adv, buffer_write_ptr, buffer_can_write, buffer_compact, buffer_read_ptr,
}
use tpe2026c1_socks.Parsers.Hello.{hello_parser_consume, hello_parser_feed, hello_parser_init}
use tpe2026c1_socks.Prelude.Memory.{store}
use tpe2026c1_socks.Socks5.Negotiate.{
  choose_method, client_interest_then, hello_input, hello_read, hello_reply, hello_output,
  hello_sent, hello_write, wrote,
}
use tpe2026c1_socks.Stm.{handle_first, jump, stm_handler_read, stm_handler_write}
use tpe2026c1_socks.Buffer.Emit.{write_all}
use tpe2026c1_socks.Metrics.{metrics_connection_opened}
use tpe2026c1_socks.Parsers.Request.{
  request_parser_consume, request_parser_feed, request_parser_init,
}
use tpe2026c1_socks.Socks5.Access.{Reaches-Access}
use tpe2026c1_socks.Socks5.Request.{
  client_interested, connect_to, origin_interested, process_request, quiet_origin, request_input,
  request_output, request_read, request_sent, request_write, request_write_arrival, shown_user,
}
use tpe2026c1_socks.Socks5.Serves.{Enabled, Sends}
use tpe2026c1_socks.Socks5.Sound.{Access, Paired}

abbrev pub client_address : Address
client_address = sockaddr_in (10 ∷ 0 ∷ 0 ∷ 1 ∷ []) 40000

abbrev pub bound : Address
bound = sockaddr_in (127 ∷ 0 ∷ 0 ∷ 1 ∷ []) 4660

abbrev pub small : Shared
small = record {
  users = [];
  config = record {
    io_buffer_size = 256;
    conn_timeout_secs = 0;
    auth_required = false;
    pop3_sniff = false;
    admin_user = [];
    admin_pass = [];
  };
  metrics = record {
    historic_connections = 0;
    current_connections = 0;
    failed_connections = 0;
    bytes_sent = 0;
    bytes_received = 0;
  };
}

abbrev pub empty_pool : Pool
empty_pool = record { entries = []; pool_size = 0 }

abbrev pub arrival : Arrival
arrival = record {
  accepts = some client_address;
  sets_nio = true;
  callocs = true;
  mallocs = (some (replicate 256 0), some (replicate 256 0));
  registers = true;
}

-- A kernel that takes all that is sent, and connects at once.
abbrev pub kernel : RecvResult → Kernel
kernel r = record {
  recv = r;
  send = λ i n. sent_bytes n;
  attempt = λ i a. connected 7 true;
  so_error = no_error;
  sockname = some bound;
  ntop = λ a. [];
  thread_starts = true;
  addrinfo = none;
}

abbrev pub small_metrics : Shared
small_metrics = record small {
  metrics = record (small.metrics) { historic_connections = 1; current_connections = 1 };
}

abbrev pub start : Connection
start = record {
  world = new_world (initial client_address (replicate 256 0, replicate 256 0, 256)) small_metrics;
  current = none;
}

abbrev or_start : Option Connection → Connection
or_start none = start
or_start (some c) = c

abbrev greeting : Kernel
greeting = kernel (received (5 ∷ 1 ∷ 0 ∷ []))

abbrev request_kernel : Kernel
request_kernel = kernel (received (5 ∷ 1 ∷ 0 ∷ 1 ∷ 192 ∷ 168 ∷ 0 ∷ 9 ∷ 0 ∷ 80 ∷ []))

abbrev greeted : Connection
greeted = or_start (handle_event (read_ready client_side) greeting start)

abbrev let_in : Connection
let_in = or_start (handle_event (write_ready client_side) greeting greeted)

abbrev requested : Connection
requested = or_start (handle_event (read_ready client_side) request_kernel let_in)

abbrev relaying : Connection
relaying = or_start (handle_event (write_ready client_side) greeting requested)

-- The reply names the address that the origin's socket is bound to.
relayed :
    (relaying.current ≡ some copy_state)
    × (relaying.world.to_client ≡ 5 ∷ 0 ∷ 5 ∷ 0 ∷ 0 ∷ 1 ∷ 127 ∷ 0 ∷ 0 ∷ 1 ∷ 18 ∷ 52 ∷ [])
    × (relaying.world.s.origin_fd ≡ some 7)
unfolding handle_event stm_handler_read handle_first machine states hello_read take_in
    buffer_write_ptr initial buffer_init store buffer_write_adv hello_input hello_parser_consume
    buffer_can_read buffer_read buffer_read_adv hello_parser_init hello_parser_feed choose_method
    hello_reply buffer_reset buffer_write client_interest_then set_interest jump finish
    buffer_compact stm_handler_write hello_write send_out hello_output hello_sent wrote
    buffer_read_ptr request_read request_input request_parser_consume request_parser_init
    request_parser_feed client_interested process_request connect_to start_connection connect_loop
    try_candidate connected_now request_write_arrival build_reply write_reply local_address
    quiet_origin origin_interested write_all request_write request_output request_sent shown_user
    copy_arrival copy_compute_interests copy_interests buffer_can_write write_bound open_socket
relayed = (refl, refl, refl)

all_sent : Sends greeting
all_sent i n = omega arith

greeting-Enabled : Enabled (read_ready client_side) greeting start.world
unfolding initial buffer_init
greeting-Enabled = ((only_read, refl, refl), (omega arith, omega arith), all_sent)

pub empty_pool-IsValid : IsValid empty_pool
empty_pool-IsValid = record { counted = refl; bounded = omega arith; sized = tt }

pub arrival-Gives : Gives (wanted_size small.config) (some (replicate 256 0))
unfolding wanted_size
arrival-Gives = (length-replicate {A = ℕ} 256 0, omega arith)

arrives_as :
    socksv5_passive_accept arrival small empty_pool ≡ (some start.world, small_metrics, empty_pool)
unfolding socksv5_passive_accept accept_from socks5_new take_pooled wanted_size storages_of
    accepted_as metrics_connection_opened
arrives_as = refl

start-Reaches : Reaches start
start-Reaches =
    accepted arrival small small_metrics empty_pool empty_pool start.world empty_pool-IsValid
      arrival-Gives arrival-Gives arrives_as

greeted_as : handle_event (read_ready client_side) greeting start ≡ some greeted
greeted_as =
    let (_, (c, e, _)) =
      handle_event_lem (read_ready client_side) greeting start-Reaches greeting-Enabled in
    e ∙ ap (λ o. some (or_start o)) (sym e)

sending-Enabled : Enabled (write_ready client_side) greeting greeted.world
unfolding handle_event stm_handler_read handle_first machine states hello_read take_in
    buffer_write_ptr initial buffer_init store buffer_write_adv hello_input hello_parser_consume
    buffer_can_read buffer_read buffer_read_adv hello_parser_init hello_parser_feed choose_method
    hello_reply buffer_reset buffer_write client_interest_then set_interest jump finish
    buffer_compact
sending-Enabled = ((only_write, refl, refl), all_sent)

greeted-Reaches : Reaches greeted
greeted-Reaches = served (read_ready client_side) greeting greeting-Enabled greeted_as start-Reaches

let_in_as : handle_event (write_ready client_side) greeting greeted ≡ some let_in
let_in_as =
    let (_, (c, e, _)) =
      handle_event_lem (write_ready client_side) greeting greeted-Reaches sending-Enabled in
    e ∙ ap (λ o. some (or_start o)) (sym e)

let_in-Reaches : Reaches let_in
let_in-Reaches = served (write_ready client_side) greeting sending-Enabled let_in_as greeted-Reaches

let_in_at : (let_in.current ≡ some request_read_state) × (let_in.world.destroyed ≡ false)
unfolding handle_event stm_handler_read handle_first machine states hello_read take_in
    buffer_write_ptr initial buffer_init store buffer_write_adv hello_input hello_parser_consume
    buffer_can_read buffer_read buffer_read_adv hello_parser_init hello_parser_feed choose_method
    hello_reply buffer_reset buffer_write client_interest_then set_interest jump finish
    buffer_compact stm_handler_write hello_write send_out hello_output hello_sent wrote
    buffer_read_ptr
let_in_at = (refl, refl)

handle_event_lem_example :
    (greeted.world.destroyed ≡ false)
    × ((c : Connection) × (handle_event (write_ready client_side) greeting greeted ≡ some c)
        × IsSound c)
handle_event_lem_example =
    handle_event_lem (write_ready client_side) greeting greeted-Reaches sending-Enabled

Reaches-Access_example :
    Access let_in.world
    × (request_read_state ≡ copy_state
        → (let_in.world.s.reply ≡ rep_success) × ((j : Interest) × Paired let_in.world j))
Reaches-Access_example =
    Reaches-Access request_read_state let_in-Reaches let_in_at.0 (omega arith) let_in_at.1
