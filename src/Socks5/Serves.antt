-- ===== src/Socks5/Serves.antt =====
-- Each event that the selector may report finds a callback in the table of src/socks5.c.
use tpe2026c1_socks.Net.{Interest, RecvFits, SendFits, only_read, only_write, op_noop}
use tpe2026c1_socks.Prelude.{
  Bool, Bytes, Option, ap, arith, get_elem?, inl, inr, none, refl, some, some_inj, sym, true, ℕ,
  ◌∙◌, ◌≡◌, ◌≤◌,
}
use tpe2026c1_socks.Socks5.Copy.{Side, client_side, copy_read, copy_write, origin_side}
use tpe2026c1_socks.Socks5.Keeps.Authenticating.{auth_read-Runs, auth_write-Runs}
use tpe2026c1_socks.Socks5.Keeps.Connecting.{connecting_write-Runs, resolv_block-Runs}
use tpe2026c1_socks.Socks5.Keeps.Copying.{Relays}
use tpe2026c1_socks.Socks5.Keeps.Negotiating.{hello_read-Runs, hello_write-Runs}
use tpe2026c1_socks.Socks5.Keeps.Relaying.{copy_read-Relays, copy_write-Relays, space}
use tpe2026c1_socks.Socks5.Keeps.Replying.{request_write-Runs}
use tpe2026c1_socks.Socks5.Keeps.Requesting.{request_read-Runs}
use tpe2026c1_socks.Socks5.Negotiate.{auth_read, auth_write, hello_read, hello_write}
use tpe2026c1_socks.Socks5.Request.{connecting_write, request_read, request_write, resolv_block}
use tpe2026c1_socks.Socks5.Sound.{
  InStage, Runs, Stage, auth_reading, auth_writing, connecting, copying, ended, failing,
  hello_reading, hello_writing, replying, request_reading, resolving_name, number,
}
use tpe2026c1_socks.Socks5.State.{Kernel, World, error_state}
use tpe2026c1_socks.Socks5.Table.{Event, read_ready, resolver_done, write_ready, states}
use tpe2026c1_socks.Stm.{StateDefinition}

pub number-le : (t : Stage) → number t ≤ error_state
number-le hello_reading = omega arith
number-le hello_writing = omega arith
number-le auth_reading = omega arith
number-le auth_writing = omega arith
number-le request_reading = omega arith
number-le resolving_name = omega arith
number-le connecting = omega arith
number-le replying = omega arith
number-le copying = omega arith
number-le ended = omega arith
number-le failing = omega arith

-- A stage with callbacks.
abbrev pub Serving : Stage → Type 0
Serving ended = ⊥
Serving failing = ⊥
Serving t = Unit

-- What the selector and the kernel promise of an event: the descriptor's interest asked for it, and
-- the calls return what fits.
abbrev pub Interested : Option Interest → (Interest → Bool) → Type 0
Interested o op = (i : Interest) × (o ≡ some i) × (op i ≡ true)

abbrev pub interest_of : Side → World → Option Interest
interest_of client_side w = w.client_interest
interest_of origin_side w = w.origin_interest

abbrev pub Sends : Kernel → Type 0
Sends k = (i n : ℕ) → SendFits n (k.send i n)

abbrev pub Enabled : Event → Kernel → World → Type 0
Enabled (read_ready side) k w =
    Interested (interest_of side w) (λ i. i.op_read) × RecvFits (space side w) k.recv × Sends k
Enabled (write_ready side) k w = Interested (interest_of side w) (λ i. i.op_write) × Sends k
Enabled resolver_done k w = w.s.resolving ≡ true

unasked :
    {o : Option Interest} (i : Interest) (op : Interest → Bool)
    → o ≡ some i
    → Interested o op
    → op i ≡ true
unasked i op e (j, f, t) = ap op (some_inj (sym e ∙ f)) ∙ t

unlinked : {o : Option Interest} {op : Interest → Bool} → o ≡ none → Interested o op → ⊥
unlinked e (i, f, t) = cc

-- A callback of the stage, called on the connection.
abbrev pub Called : Stage → Option (World → Option (ℕ × World)) → World → Type 0
Called t c w = (f : World → Option (ℕ × World)) × (c ≡ some f) × Runs t (f w)

at : (t : Stage) (f : World → Option (ℕ × World)) (w : World) → Runs t (f w) → Called t (some f) w
at t f w h = (f, refl, h)

Relays-Runs :
    (w : World) (up down : Bytes) (r : Option (ℕ × World)) → Relays w up down r → Runs copying r
Relays-Runs w up down r (n, w', e, m, _) = (n, w', e, m)

pub read_called :
    (t : Stage) (side : Side) (k : Kernel) (w : World)
    → Serving t
    → InStage t w
    → Enabled (read_ready side) k w
    → (d : StateDefinition World) → get_elem? (states side k) (number t) ≡ some d
    → Called t d.on_read_ready w
unfolding states
read_called hello_reading client_side k w s h (i, f, _) d e =
    rw (← some_inj e) (at hello_reading (hello_read k.recv) w (hello_read-Runs k.recv w h f))
read_called auth_reading client_side k w s h (i, f, _) d e =
    rw (← some_inj e) (at auth_reading (auth_read k.recv) w (auth_read-Runs k.recv w h f))
read_called request_reading client_side k w s h (i, f, _) d e =
    rw (← some_inj e) (at request_reading (request_read k) w (request_read-Runs k w h f))
read_called copying side k w s h (i, f, sends) d e =
    rw (← some_inj e)
      (at copying (copy_read side k) w (Relays-Runs w _ _ _ (copy_read-Relays side k w h f sends)))
read_called hello_writing client_side k w s h i d e =
    absurd (cc (unasked only_write (λ j. j.op_read) h.2.1 i.0))
read_called auth_writing client_side k w s h i d e =
    absurd (cc (unasked only_write (λ j. j.op_read) h.2.1 i.0))
read_called resolving_name client_side k w s h i d e =
    absurd (cc (unasked op_noop (λ j. j.op_read) h.2.1 i.0))
read_called connecting client_side k w s h i d e =
    absurd (cc (unasked op_noop (λ j. j.op_read) h.2.1 i.0))
read_called replying client_side k w s h i d e =
    absurd (cc (unasked only_write (λ j. j.op_read) h.2.1 i.0))
read_called hello_reading origin_side k w s h i d e = absurd (unlinked h.2.0.1 i.0)
read_called hello_writing origin_side k w s h i d e = absurd (unlinked h.2.0.1 i.0)
read_called auth_reading origin_side k w s h i d e = absurd (unlinked h.2.0.1 i.0)
read_called auth_writing origin_side k w s h i d e = absurd (unlinked h.2.0.1 i.0)
read_called request_reading origin_side k w s h i d e = absurd (unlinked h.2.0.1 i.0)
read_called resolving_name origin_side k w s h i d e = absurd (unlinked h.2.0.1 i.0)
read_called connecting origin_side k w s h i d e =
    absurd (cc (unasked only_write (λ j. j.op_read) h.2.0.2 i.0))
read_called replying origin_side k w s (v, r, (inl a, l, c, n)) i d e = absurd (unlinked a.1 i.0)
read_called replying origin_side k w s (v, r, (inr p, l, c, n)) i d e =
    absurd (cc (unasked op_noop (λ j. j.op_read) p.2 i.0))
read_called ended side k w s h i d e = elim s [ ]
read_called failing side k w s h i d e = elim s [ ]

pub write_called :
    (t : Stage) (side : Side) (k : Kernel) (w : World)
    → Serving t
    → InStage t w
    → Enabled (write_ready side) k w
    → (d : StateDefinition World) → get_elem? (states side k) (number t) ≡ some d
    → Called t d.on_write_ready w
unfolding states
write_called hello_writing client_side k w s h (i, f) d e =
    rw (← some_inj e) (at hello_writing (hello_write k.send) w (hello_write-Runs k.send w h f))
write_called auth_writing client_side k w s h (i, f) d e =
    rw (← some_inj e) (at auth_writing (auth_write k.send) w (auth_write-Runs k.send w h f))
write_called connecting origin_side k w s h (i, f) d e =
    rw (← some_inj e) (at connecting (connecting_write k) w (connecting_write-Runs k w h))
write_called replying client_side k w s h (i, f) d e =
    rw (← some_inj e) (at replying (request_write k.send) w (request_write-Runs k.send w h f))
write_called copying side k w s h (i, f) d e =
    rw (← some_inj e)
      (at copying (copy_write side k) w (Relays-Runs w _ _ _ (copy_write-Relays side k w h f)))
write_called hello_reading client_side k w s h i d e =
    absurd (cc (unasked only_read (λ j. j.op_write) h.2.1 i.0))
write_called auth_reading client_side k w s h i d e =
    absurd (cc (unasked only_read (λ j. j.op_write) h.2.1 i.0))
write_called request_reading client_side k w s h i d e =
    absurd (cc (unasked only_read (λ j. j.op_write) h.2.1 i.0))
write_called resolving_name client_side k w s h i d e =
    absurd (cc (unasked op_noop (λ j. j.op_write) h.2.1 i.0))
write_called connecting client_side k w s h i d e =
    absurd (cc (unasked op_noop (λ j. j.op_write) h.2.1 i.0))
write_called hello_reading origin_side k w s h i d e = absurd (unlinked h.2.0.1 i.0)
write_called hello_writing origin_side k w s h i d e = absurd (unlinked h.2.0.1 i.0)
write_called auth_reading origin_side k w s h i d e = absurd (unlinked h.2.0.1 i.0)
write_called auth_writing origin_side k w s h i d e = absurd (unlinked h.2.0.1 i.0)
write_called request_reading origin_side k w s h i d e = absurd (unlinked h.2.0.1 i.0)
write_called resolving_name origin_side k w s h i d e = absurd (unlinked h.2.0.1 i.0)
write_called replying origin_side k w s (v, r, (inl a, l, c, n)) i d e = absurd (unlinked a.1 i.0)
write_called replying origin_side k w s (v, r, (inr p, l, c, n)) i d e =
    absurd (cc (unasked op_noop (λ j. j.op_write) p.2 i.0))
write_called ended side k w s h i d e = elim s [ ]
write_called failing side k w s h i d e = elim s [ ]

-- Only a connection whose name is being resolved waits for the resolver.
pub block_called :
    (t : Stage) (k : Kernel) (w : World)
    → InStage t w
    → w.s.resolving ≡ true
    → (d : StateDefinition World) → get_elem? (states client_side k) (number t) ≡ some d
    → Called t d.on_block_ready w
unfolding states
block_called resolving_name k w h q d e =
    rw (← some_inj e) (at resolving_name (resolv_block k) w (resolv_block-Runs k w h))
block_called hello_reading k w (v, r, h) q d e = absurd (cc)
block_called hello_writing k w (v, r, h) q d e = absurd (cc)
block_called auth_reading k w (v, r, h) q d e = absurd (cc)
block_called auth_writing k w (v, r, h) q d e = absurd (cc)
block_called request_reading k w (v, r, h) q d e = absurd (cc)
block_called connecting k w (v, r, h) q d e = absurd (cc)
block_called replying k w (v, r, h) q d e = absurd (cc)
block_called copying k w (v, r, h) q d e = absurd (cc)
block_called ended k w (v, r, h) q d e = absurd (cc)
block_called failing k w (v, r, h) q d e = absurd (cc)
