-- ===== src/Socks5/RelayTests.antt =====
-- The theorems about single functions of src/socks5.c, at a connection with one descriptor and at
-- one that relays.
use tpe2026c1_socks.Buffer.Bounds.{IsValid}
use tpe2026c1_socks.Socks5.Negotiate
use tpe2026c1_socks.Socks5.Attempts.{placed}
use tpe2026c1_socks.Socks5.Done.{EndsInOrder, closed, socksv5_done_lem}
use tpe2026c1_socks.Socks5.Accept.{Measures, Opens, initial-InStage, socksv5_passive_accept_lem}
use tpe2026c1_socks.Buffer.{Buffer, buffer_can_read, buffer_init, buffer_read_adv, buffer_read_ptr}
use tpe2026c1_socks.Buffer.Queue.{Holds}
use tpe2026c1_socks.Net.{
  SendFits, SendResult, only_read, only_write, send_again, sent_bytes, received,
}
use tpe2026c1_socks.Parsers.Hello.{method_no_auth, method_none, method_userpass}
use tpe2026c1_socks.Prelude.{
  Bytes, List, [], arith, false, inl, inr, length-replicate, not, refl, replicate, some, suc, true,
  zero, ℕ, ◌||◌, ◌↔◌, ◌∷◌, ◌≡◌, min,
}
use tpe2026c1_socks.Socks5.Access.{choose_method_iff}
use tpe2026c1_socks.Socks5.Connect.{
  build_reply, close_fd, close_socket, connect_loop, failed_candidate, open_socket, register_origin,
  start_connection, try_candidate,
}
use tpe2026c1_socks.Socks5.Copy.{
  client_side, copy_pump, copy_read, copy_update, pump_loop, pump_step,
}
use tpe2026c1_socks.Socks5.HalfClose.{Over, copy_update_iff}
use tpe2026c1_socks.Socks5.Keeps.Copying.{Relays}
use tpe2026c1_socks.Socks5.Keeps.Relaying.{copy_read-Relays}
use tpe2026c1_socks.Socks5.Life.{initial, socksv5_passive_accept}
use tpe2026c1_socks.Socks5.Negotiate.{choose_method}
use tpe2026c1_socks.Socks5.Pump.{Pumps, copy_pump_lem}
use tpe2026c1_socks.Socks5.Reply.{Tells, build_reply_lem, reply_bytes}
use tpe2026c1_socks.Socks5.Sound.{InStage, copying, hello_reading}
use tpe2026c1_socks.Socks5.State.{
  AddrInfo, Address, Attempt, World, connect_failed, done_state, econnrefused, in_progress,
  other_family, request_connecting_state, resolved, errno_to_reply,
}
use tpe2026c1_socks.Socks5.Table.{socksv5_done}
use tpe2026c1_socks.Socks5.Tests.{
  arrival, arrival-Gives, bound, client_address, empty_pool, empty_pool-IsValid, kernel, small,
  small_metrics, start,
}

abbrev storage : Bytes
storage = replicate 256 0

storage-Measures : Measures (storage, storage, 256)
storage-Measures = (length-replicate {A = ℕ} 256 0, length-replicate {A = ℕ} 256 0, omega arith)

start-InStage : InStage hello_reading start.world
start-InStage =
    initial-InStage client_address (storage, storage, 256) small_metrics storage-Measures
      (omega arith)

-- The connection behind its handshake.
abbrev relay : World
relay = record (start.world) {
  s = record (start.world.s) { origin_fd = some 7; references = 2 };
  origin_interest = some only_read;
  origins = 7 ∷ [];
}

relay-InStage : InStage copying relay
relay-InStage =
    unfold initial in
    (
      start-InStage.0,
      refl,
      ((only_read, (7, refl, refl, refl, refl)), (only_read, refl), inl (refl, refl), refl),
    )

-- Two candidates, of which the second is reached later.
abbrev two_attempts : ℕ → Address → Attempt
two_attempts zero a = connect_failed 8 econnrefused
two_attempts (suc i) a = in_progress 9 true

abbrev two_candidates : World
two_candidates = record (start.world) {
  s = record (start.world.s) { addrs = client_address ∷ bound ∷ [] };
}

tried_second :
    start_connection two_attempts two_candidates
    ≡ some (
      request_connecting_state,
      register_origin (open_socket 9 (placed two_candidates 5 1)) 9 only_write,
    )
unfolding start_connection connect_loop try_candidate failed_candidate register_origin open_socket
    close_socket close_fd initial errno_to_reply
tried_second = refl

-- Three bytes, which `send` takes one at a time, and then no more.
abbrev three_bytes : Buffer
three_bytes = record { storage = 7 ∷ 8 ∷ 9 ∷ []; limit = 3; read = 0; write = 3 }

abbrev by_one : ℕ → ℕ → SendResult
by_one zero n = sent_bytes (min 1 n)
by_one (suc zero) n = sent_bytes (min 1 n)
by_one (suc (suc i)) n = send_again

by_one-fits : (i n : ℕ) → SendFits n (by_one i n)
by_one-fits zero n = omega arith
by_one-fits (suc zero) n = omega arith
by_one-fits (suc (suc i)) n = tt

three_bytes-IsValid : IsValid three_bytes
three_bytes-IsValid = omega arith

pumped_two :
    copy_pump by_one three_bytes ≡ some (false, record three_bytes { read = 2 }, 7 ∷ 8 ∷ [])
unfolding copy_pump pump_loop pump_step buffer_can_read buffer_read_ptr buffer_read_adv
pumped_two = refl

copy_pump_lem_example : Pumps by_one three_bytes (copy_pump by_one three_bytes)
copy_pump_lem_example = copy_pump_lem by_one three_bytes-IsValid by_one-fits

copy_read-Relays_example :
    Relays relay (1 ∷ 2 ∷ []) [] (copy_read client_side (kernel (received (1 ∷ 2 ∷ []))) relay)
unfolding initial buffer_init
copy_read-Relays_example =
    copy_read-Relays client_side (kernel (received (1 ∷ 2 ∷ []))) relay relay-InStage
      (omega arith, omega arith) (λ i n. omega arith)

build_reply_lem_example :
    (c : Buffer) × (build_reply (some bound) relay 0
      ≡ some (record relay { s = record (relay.s) { write_buffer = c } }))
    × (Tells relay.s 0 (some bound) (λ local. Holds relay.s.write_buffer c (reply_bytes 0 local)))
build_reply_lem_example =
    build_reply_lem (some bound) relay 0 relay-InStage.0.1.0 relay-InStage.0.1.1

socksv5_done_lem_example : (socksv5_done relay ≡ closed relay) × EndsInOrder relay
unfolding initial
socksv5_done_lem_example =
    socksv5_done_lem relay (inr (only_read, (7, refl, refl, refl, refl))) refl

socksv5_passive_accept_lem_example : Opens small (socksv5_passive_accept arrival small empty_pool)
socksv5_passive_accept_lem_example =
    socksv5_passive_accept_lem arrival small empty_pool empty_pool-IsValid arrival-Gives
      arrival-Gives

copy_update_iff_example :
    ((copy_update relay).0 ≡ done_state)
    ↔ (Over relay.s.client_eof relay.s.read_buffer × Over relay.s.origin_eof relay.s.write_buffer)
copy_update_iff_example = copy_update_iff relay relay-InStage.0.0 relay-InStage.0.1.0

abbrev mixed_list : List AddrInfo
mixed_list = other_family ∷ resolved bound ∷ []

choose_method_iff_example :
    ((choose_method small.config start.world.s.hello ≡ method_no_auth)
      ↔ ((small.config.auth_required ≡ false) × (start.world.s.hello.has_noauth ≡ true)))
    × ((choose_method small.config start.world.s.hello ≡ method_userpass) ↔ (
        (start.world.s.hello.has_userpass ≡ true)
        × ((small.config.auth_required || not start.world.s.hello.has_noauth) ≡ true)))
    × ((choose_method small.config start.world.s.hello ≡ method_none) ↔ (
        (start.world.s.hello.has_userpass ≡ false)
        × ((small.config.auth_required || not start.world.s.hello.has_noauth) ≡ true)))
choose_method_iff_example = choose_method_iff small.config start.world.s.hello
