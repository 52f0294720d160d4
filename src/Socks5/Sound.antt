-- ===== src/Socks5/Sound.antt =====
-- The invariant of a connection of src/socks5.c, state by state.
use tpe2026c1_socks.Buffer.Bounds
use tpe2026c1_socks.Config.{config_min_buffer}
use tpe2026c1_socks.Net.{Interest, only_read, only_write, op_noop}
use tpe2026c1_socks.Parsers.Hello.{method_no_auth, method_none, method_userpass}
use tpe2026c1_socks.Pop3.Line.{HoldsLine}
use tpe2026c1_socks.Prelude.{
  Bool, Bytes, Option, arith, false, if◌then◌else◌, inl, inr, length, none, refl, some, true, ℕ,
  ◌≡◌, ◌≢◌, ◌≤◌, ◌⊎◌, ◌<◌, [], ◌∷◌,
}
use tpe2026c1_socks.Prelude.Text.{c_string}
use tpe2026c1_socks.Users.Map.{password}
use tpe2026c1_socks.Socks5.State.{
  World, auth_read_state, auth_write_state, copy_state, done_state, error_state, hello_read_state,
  hello_write_state, max_addrs, rep_success, request_connecting_state, request_read_state,
  request_resolv_state, request_write_state,
}

-- `enum socks5_state` as data.
pub data Stage : Type 0 where
  hello_reading hello_writing auth_reading auth_writing request_reading : Stage
  resolving_name connecting replying copying ended failing : Stage

abbrev pub number : Stage → ℕ
number hello_reading = hello_read_state
number hello_writing = hello_write_state
number auth_reading = auth_read_state
number auth_writing = auth_write_state
number request_reading = request_read_state
number resolving_name = request_resolv_state
number connecting = request_connecting_state
number replying = request_write_state
number copying = copy_state
number ended = done_state
number failing = error_state

-- A resolver's thread is at work.
abbrev pub waits : Stage → Bool
waits resolving_name = true
waits _ = false

-- What a handler relies on in every state: sound buffers, of which the one for replies has room for
-- each of them, a sound sniffer, at most 16 candidates, and a connection that was not freed.
abbrev pub Sound : World → Type 0
Sound w =
    Bounds.IsValid w.s.read_buffer
    × (Bounds.IsValid w.s.write_buffer × (config_min_buffer ≤ w.s.write_buffer.limit))
    × ((cur : Bytes) × HoldsLine w.s.pop3 cur)
    × (length w.s.addrs ≤ max_addrs)
    × (w.destroyed ≡ false)

-- The table of users had the client's credentials when they were answered.
abbrev pub Checked : World → Type 0
Checked w = password w.checked (c_string w.s.auth.username) ≡ some (c_string w.s.auth.password)

-- The client may use the proxy: it was let in without authentication, which was not required, or
-- it authenticated.
abbrev pub Access : World → Type 0
Access w =
    ((w.s.method ≡ method_no_auth) × (w.required ≡ false))
    ⊎ ((w.s.method ≡ method_userpass) × (w.s.auth_ok ≡ true) × Checked w)

-- The method that the greeting was answered with.
abbrev pub Offered : ℕ → Bool → Type 0
Offered m required =
    ((m ≡ method_no_auth) × (required ≡ false)) ⊎ ((m ≡ method_userpass) ⊎ (m ≡ method_none))

abbrev pub Listens : World → Interest → Type 0
Listens w i = w.client_interest ≡ some i

-- The connection has one descriptor, or two, and no other socket is open for it.
abbrev pub Alone : World → Type 0
Alone w =
    (w.s.origin_fd ≡ none) × (w.origin_interest ≡ none) × (w.s.references ≡ 1) × (w.origins ≡ [])

abbrev pub Paired : World → Interest → Type 0
Paired w i =
    (fd : ℕ) × (w.s.origin_fd ≡ some fd)
    × (w.origin_interest ≡ some i)
    × (w.s.references ≡ 2)
    × (w.origins ≡ fd ∷ [])

abbrev pub Linked : World → Type 0
Linked w = Alone w ⊎ ((i : Interest) × Paired w i)

-- A reply of success is only given for an origin that is there.
abbrev pub Honest : World → Type 0
Honest w = w.s.reply ≡ rep_success → (i : Interest) × Paired w i

abbrev pub OfStage : Stage → World → Type 0
OfStage hello_reading w = Alone w × Listens w only_read
OfStage hello_writing w = Alone w × Listens w only_write × Offered w.s.method w.required
OfStage auth_reading w = Alone w × Listens w only_read × (w.s.method ≡ method_userpass)
OfStage auth_writing w =
    Alone w
    × Listens w only_write
    × (w.s.method ≡ method_userpass)
    × (w.s.auth_ok ≡ true → Checked w)
OfStage request_reading w = Alone w × Listens w only_read × Access w
OfStage resolving_name w = Alone w × Listens w op_noop × Access w
OfStage connecting w =
    Paired w only_write × Listens w op_noop × Access w × (w.s.addr_idx < length w.s.addrs)
OfStage replying w = (Alone w ⊎ Paired w op_noop) × Listens w only_write × Access w × Honest w
OfStage copying w =
    ((i : Interest) × Paired w i)
    × ((i : Interest) × Listens w i)
    × Access w
    × (w.s.reply ≡ rep_success)
OfStage ended w = Linked w × ((i : Interest) × Listens w i)
OfStage failing w = Linked w × ((i : Interest) × Listens w i)

-- The same before `on_arrival`.
abbrev pub Entering : Stage → World → Type 0
Entering resolving_name w = Alone w × ((i : Interest) × Listens w i) × Access w
Entering replying w = Linked w × ((i : Interest) × Listens w i) × Access w × Honest w
Entering t w = OfStage t w

abbrev pub InStage : Stage → World → Type 0
InStage t w = Sound w × (w.s.resolving ≡ waits t) × OfStage t w

abbrev pub Enters : Stage → World → Type 0
Enters t w = Sound w × (w.s.resolving ≡ waits t) × Entering t w

-- By the number of the state, for the engine.
abbrev pub StateInv : ℕ → World → Type 0
StateInv i w = (t : Stage) × (i ≡ number t) × InStage t w

abbrev pub StatePre : ℕ → World → Type 0
StatePre i w = (t : Stage) × (i ≡ number t) × Enters t w

-- A callback of the stage `t` stays or goes on.
pub data Moves (t : Stage) (n : ℕ) (w : World) : Type 0 where
  stays_in : n ≡ number t → InStage t w → Moves t n w
  goes_to : (u : Stage) → n ≡ number u → number t ≢ number u → Enters u w → Moves t n w

-- It did not abort.
abbrev pub Runs : Stage → Option (ℕ × World) → Type 0
Runs t r = (n : ℕ) × (w : World) × (r ≡ some (n, w)) × Moves t n w

pub stay_in : (t : Stage) (w : World) → InStage t w → Runs t (some (number t, w))
stay_in t w h = (number t, w, refl, stays_in refl h)

pub go_to :
    (t u : Stage) (w : World) → number t ≢ number u → Enters u w → Runs t (some (number u, w))
go_to t u w ne h = (number u, w, refl, goes_to u refl ne h)

pub if-Runs :
    (t : Stage) (b : Bool) {x y : Option (ℕ × World)}
    → (b ≡ true → Runs t x)
    → (b ≡ false → Runs t y)
    → Runs t (if b then x else y)
if-Runs t true h k = h refl
if-Runs t false h k = k refl

pub Linked-origin : (w : World) → Linked w → w.s.references ≢ 0
Linked-origin w (inl a) = ground (arith, a.2)
Linked-origin w (inr (i, p)) = ground (arith, p.3)
