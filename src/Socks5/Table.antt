-- ===== src/Socks5/Table.antt =====
-- The state machine of src/socks5.c, the handlers that the selector calls, and the end of a
-- connection.
use tpe2026c1_socks.Prelude.{List, Option, [], if◌then◌else◌, none, some, ℕ, ◌==◌, ◌>>=◌, ◌||◌, ◌∷◌}
use tpe2026c1_socks.Socks5.Connect.{unregister_client, unregister_origin}
use tpe2026c1_socks.Socks5.Copy.{Side, client_side, copy_arrival, copy_read, copy_write}
use tpe2026c1_socks.Socks5.Negotiate.{auth_read, auth_write, hello_read, hello_write}
use tpe2026c1_socks.Socks5.Request.{
  connecting_write, request_read, request_write, request_write_arrival, resolv_arrival,
  resolv_block,
}
use tpe2026c1_socks.Socks5.State.{
  Kernel, World, auth_read_state, auth_write_state, copy_state, done_state, error_state,
  hello_read_state, hello_write_state, request_connecting_state, request_read_state,
  request_resolv_state, request_write_state,
}
use tpe2026c1_socks.Stm.{
  StateDefinition, StateMachine, stm_handler_block, stm_handler_read, stm_handler_write,
}

-- A state without callbacks.
abbrev plain : ℕ → StateDefinition World
plain i = record {
  state = i;
  on_arrival = none;
  on_departure = none;
  on_read_ready = none;
  on_write_ready = none;
  on_block_ready = none;
}

-- `states`, for an event on one of the descriptors.
unfoldable pub states : Side → Kernel → List (StateDefinition World)
states side k =
    record (plain hello_read_state) { on_read_ready = some (hello_read k.recv) }
    ∷ record (plain hello_write_state) { on_write_ready = some (hello_write k.send) }
    ∷ record (plain auth_read_state) { on_read_ready = some (auth_read k.recv) }
    ∷ record (plain auth_write_state) { on_write_ready = some (auth_write k.send) }
    ∷ record (plain request_read_state) { on_read_ready = some (request_read k) }
    ∷ record (plain request_resolv_state) {
      on_arrival = some (λ _ w. some (resolv_arrival w));
      on_block_ready = some (resolv_block k);
    }
    ∷ record (plain request_connecting_state) { on_write_ready = some (connecting_write k) }
    ∷ record (plain request_write_state) {
      on_arrival = some (λ _ w. request_write_arrival k w);
      on_write_ready = some (request_write k.send);
    }
    ∷ record (plain copy_state) {
      on_arrival = some (λ _ w. some (copy_arrival w));
      on_read_ready = some (copy_read side k);
      on_write_ready = some (copy_write side k);
    }
    ∷ plain done_state
    ∷ plain error_state
    ∷ []

-- A connection between two events: what its handlers see, and the current state of its machine,
-- none before the first event.
pub record Connection : Type 0 where
  pub world : World
  pub current : Option ℕ

-- `s->stm` as `socks5_new` sets it up.
unfoldable pub machine : Side → Kernel → Option ℕ → StateMachine World
machine side k current = record {
  initial = hello_read_state;
  states = states side k;
  max_state = error_state;
  current = current;
}

-- `socksv5_done`: each descriptor that the connection had at first is unregistered.
unfoldable pub unregister_all : Option ℕ → World → World
unregister_all none w = unregister_client w
unregister_all (some fd) w = unregister_origin (unregister_client w)

unfoldable pub socksv5_done : World → World
socksv5_done w = unregister_all w.s.origin_fd w

unfoldable pub finish : ℕ × StateMachine World × World → Connection
finish (st, m, w) =
    if st == done_state || st == error_state
    then record { world = socksv5_done w; current = m.current }
    else record { world = w; current = m.current }

-- What the selector calls a handler for: a descriptor that is ready, or the end of the resolver.
pub data Event : Type 0 where
  read_ready write_ready : Side → Event
  resolver_done : Event

-- `socksv5_read`, `socksv5_write` and `socksv5_block`
unfoldable pub handle_event : Event → Kernel → Connection → Option Connection
handle_event (read_ready side) k c = do
  r ← stm_handler_read (machine side k c.current) c.world
  some (finish r)
handle_event (write_ready side) k c = do
  r ← stm_handler_write (machine side k c.current) c.world
  some (finish r)
handle_event resolver_done k c = do
  r ← stm_handler_block (machine client_side k c.current) c.world
  some (finish r)
