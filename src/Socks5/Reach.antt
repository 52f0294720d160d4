-- ===== src/Socks5/Reach.antt =====
-- The runs of a connection of src/socks5.c: it is accepted, the selector serves its events, and
-- between them other connections and the management protocol change the globals.
use tpe2026c1_socks.Socks5.Accept.{IsValid, Gives, Opens, socksv5_passive_accept_lem}
use mathlib.Core.Bool.{false≢true}
use tpe2026c1_socks.Prelude.{
  Option, arith, false, inl, inr, none, refl, some, some_inj, sym, true, ℕ, ◌>>=◌, ◌∙◌, ◌≡◌, ◌⊎◌,
  ◌==◌, ◌||◌, subst, [],
}
use tpe2026c1_socks.Socks5.Copy.{Side, client_side, origin_side}
use tpe2026c1_socks.Socks5.Serves.{
  Serving, Enabled, block_called, number-le, read_called, write_called,
}
use tpe2026c1_socks.Socks5.Sound.{
  InStage, Stage, auth_reading, auth_writing, connecting, copying, ended, failing, hello_reading,
  hello_writing, replying, request_reading, resolving_name, number, Linked,
}
use tpe2026c1_socks.Socks5.State.{Kernel, World, error_state, done_state}
use tpe2026c1_socks.Socks5.Table.{
  Connection, machine, Event, finish, handle_event, read_ready, resolver_done, write_ready,
}
use tpe2026c1_socks.Stm.{
  StateDefinition, handler, stm_handler_block, stm_handler_read, stm_handler_write,
}
use tpe2026c1_socks.Stm.Handlers.{Inside, here}
use tpe2026c1_socks.Mgmt.Process.{Shared}
use tpe2026c1_socks.Socks5.Done.{socksv5_done_lem}
use tpe2026c1_socks.Socks5.Engine.{Calls, event_runs}
use tpe2026c1_socks.Socks5.Life.{Arrival, Pool, socksv5_passive_accept, wanted_size}

-- The stages of a connection that the selector still serves, and one that ended.
abbrev pub Alive : Option ℕ → World → Type 0
Alive none w = InStage hello_reading w
Alive (some i) w = (t : Stage) × (i ≡ number t) × Serving t × InStage t w

-- Both descriptors are gone, and with them the memory.
abbrev pub Closed : World → Type 0
Closed w =
    (w.client_interest ≡ none)
    × (w.origin_interest ≡ none)
    × (w.s.references ≡ 0)
    × (w.s.resolving ≡ false)
    × (w.destroyed ≡ true)
    × (w.origins ≡ [])

abbrev pub IsSound : Connection → Type 0
IsSound c = Alive c.current c.world ⊎ Closed c.world

goes_on :
    (t : Stage) (side : Side) (k : Kernel) (w : World) (n : ℕ)
    → n ≡ number t
    → (n == done_state || n == error_state) ≡ false
    → Serving t
    → InStage t w
    → IsSound (finish (n, machine side k (some n), w))
unfolding finish machine
goes_on t side k w n e q s h = rw q (inl (t, e, s, h))

closes :
    (t : Stage) (side : Side) (k : Kernel) (w : World) (n : ℕ)
    → (n == done_state || n == error_state) ≡ true
    → Linked w
    → w.s.resolving ≡ false
    → IsSound (finish (n, machine side k (some n), w))
unfolding finish machine
closes t side k w n q l r =
    rw (q, (socksv5_done_lem w l r).0) (inr (refl, refl, refl, r, refl, refl))

finished_at :
    (t : Stage) (side : Side) (k : Kernel) (w : World) (n : ℕ)
    → n ≡ number t
    → InStage t w
    → IsSound (finish (n, machine side k (some n), w))
finished_at ended side k w n e h = closes ended side k w n (ground (arith, e)) h.2.0 h.1
finished_at failing side k w n e h = closes failing side k w n (ground (arith, e)) h.2.0 h.1
finished_at hello_reading side k w n e h =
    goes_on hello_reading side k w n e (ground (arith, e)) tt h
finished_at hello_writing side k w n e h =
    goes_on hello_writing side k w n e (ground (arith, e)) tt h
finished_at auth_reading side k w n e h = goes_on auth_reading side k w n e (ground (arith, e)) tt h
finished_at auth_writing side k w n e h = goes_on auth_writing side k w n e (ground (arith, e)) tt h
finished_at request_reading side k w n e h =
    goes_on request_reading side k w n e (ground (arith, e)) tt h
finished_at resolving_name side k w n e h =
    goes_on resolving_name side k w n e (ground (arith, e)) tt h
finished_at connecting side k w n e h = goes_on connecting side k w n e (ground (arith, e)) tt h
finished_at replying side k w n e h = goes_on replying side k w n e (ground (arith, e)) tt h
finished_at copying side k w n e h = goes_on copying side k w n e (ground (arith, e)) tt h

-- An event of a connection that lives.
abbrev Proceeds : Option Connection → Type 0
Proceeds r = (c : Connection) × (r ≡ some c) × IsSound c

module _ (side : Side) (k : Kernel)
    (ready : StateDefinition World → Option (World → Option (ℕ × World))) (w : World) where
  run_at :
      (o : Option ℕ) (t : Stage)
      → Inside o error_state
      → here (machine side k o) o ≡ number t
      → Calls side k ready t w
      → Proceeds (handler ready (machine side k o) w >>= λ r. some (finish r))
  run_at o t low e calls =
      let (n, w', q, (u, f, h)) = event_runs side k ready o t w low e calls in
      (finish (n, machine side k (some n), w'), rw (q, ◌>>=◌) refl, finished_at u side k w' n f h)

  Alive-runs :
      (o : Option ℕ)
      → Alive o w
      → ((t : Stage) → Serving t → InStage t w → Calls side k ready t w)
      → Proceeds (handler ready (machine side k o) w >>= λ r. some (finish r))
  unfolding machine
  Alive-runs none h calls = run_at none hello_reading tt refl (calls hello_reading tt h)
  Alive-runs (some i) (t, e, s, h) calls =
      run_at (some i) t (omega (arith, e, number-le t)) e (calls t s h)

-- The selector reports no event for a connection that ended.
Closed-quiet : (e : Event) (k : Kernel) (w : World) → Closed w → Enabled e k w → ⊥
Closed-quiet (read_ready client_side) k w h ((i, f, _), _, _) = cc (sym h.0 ∙ f)
Closed-quiet (read_ready origin_side) k w h ((i, f, _), _, _) = cc (sym h.1 ∙ f)
Closed-quiet (write_ready client_side) k w h ((i, f, _), _) = cc (sym h.0 ∙ f)
Closed-quiet (write_ready origin_side) k w h ((i, f, _), _) = cc (sym h.1 ∙ f)
Closed-quiet resolver_done k w h e = false≢true (sym h.3 ∙ e)

handle-Alive :
    (e : Event) (k : Kernel) (c : Connection)
    → Alive c.current c.world
    → Enabled e k c.world
    → Proceeds (handle_event e k c)
unfolding handle_event stm_handler_read stm_handler_write stm_handler_block
handle-Alive (read_ready side) k c h f =
    Alive-runs side k (λ d. d.on_read_ready) c.world c.current h
      (λ t s v d e. read_called t side k c.world s v f d e)
handle-Alive (write_ready side) k c h f =
    Alive-runs side k (λ d. d.on_write_ready) c.world c.current h
      (λ t s v d e. write_called t side k c.world s v f d e)
handle-Alive resolver_done k c h f =
    Alive-runs client_side k (λ d. d.on_block_ready) c.world c.current h
      (λ t s v d e. block_called t k c.world v f d e)

pub data Reaches : Connection → Type 0 where
  accepted :
      (a : Arrival) (g g' : Shared) (pool pool' : Pool) (w : World)
      → IsValid pool
      → Gives (wanted_size g.config) a.mallocs.0
      → Gives (wanted_size g.config) a.mallocs.1
      → socksv5_passive_accept a g pool ≡ (some w, g', pool')
      → Reaches (record { world = w; current = none })
  meanwhile :
      {c : Connection} (g : Shared)
      → Reaches c
      → Reaches (record c { world = record (c.world) { g = g } })
  served :
      {c c' : Connection} (e : Event) (k : Kernel)
      → Enabled e k c.world
      → handle_event e k c ≡ some c'
      → Reaches c
      → Reaches c'

same_stage : (t : Stage) (w : World) (g : Shared) → InStage t w → InStage t (record w { g = g })
same_stage hello_reading w g h = h
same_stage hello_writing w g h = h
same_stage auth_reading w g h = h
same_stage auth_writing w g h = h
same_stage request_reading w g h = h
same_stage resolving_name w g h = h
same_stage connecting w g h = h
same_stage replying w g h = h
same_stage copying w g h = h
same_stage ended w g h = h
same_stage failing w g h = h

not_freed : (o : Option ℕ) (w : World) → Alive o w → w.destroyed ≡ false
not_freed none w h = h.0.4
not_freed (some i) w (t, e, s, h) = h.0.4

served_alive :
    (e : Event) (k : Kernel) (c : Connection)
    → Enabled e k c.world
    → IsSound c
    → (c.world.destroyed ≡ false)
      × ((c' : Connection) × (handle_event e k c ≡ some c') × IsSound c')
served_alive e k c f (inl h) = (not_freed c.current c.world h, handle-Alive e k c h f)
served_alive e k c f (inr h) = absurd (Closed-quiet e k c.world h f)

served_sound :
    (e : Event) (k : Kernel) (c c' : Connection)
    → Enabled e k c.world
    → handle_event e k c ≡ some c'
    → IsSound c
    → IsSound c'
served_sound e k c c' f q h =
    let (_, (d, p, v)) = served_alive e k c f h in subst IsSound (some_inj (sym p ∙ q)) v

other_globals :
    (c : Connection) (g : Shared)
    → IsSound c
    → IsSound (record c { world = record (c.world) { g = g } })
other_globals c g (inr h) = inr h
other_globals c g (inl h) = inl (by_state c.current h)
  where
    by_state : (o : Option ℕ) → Alive o c.world → Alive o (record (c.world) { g = g })
    by_state none h = same_stage hello_reading c.world g h
    by_state (some i) (t, e, s, h) = (t, e, s, same_stage t c.world g h)

pub Reaches-IsSound : {c : Connection} → Reaches c → IsSound c
Reaches-IsSound (accepted a g g' pool pool' w v m n e) =
    let o : Opens g (some w, g', pool') =
      subst (Opens g) e (socksv5_passive_accept_lem a g pool v m n) in
    inl o.1.0
Reaches-IsSound (meanwhile {c} g r) = other_globals c g (Reaches-IsSound r)
Reaches-IsSound (served {c} {c'} e k f q r) = served_sound e k c c' f q (Reaches-IsSound r)

-- On every connection that is reached, the next event that the selector may report, whatever the
-- calls of its handler return, finds a connection that was not freed and a callback for it. The
-- handler does not abort, and every loop in it ends; it leaves a sound connection, with no socket
-- open for the origin but the one it is registered with, or one whose descriptors are both gone,
-- whose sockets for the origin are closed and whose memory was given back.
pub handle_event_lem :
    {c : Connection} (e : Event) (k : Kernel)
    → Reaches c
    → Enabled e k c.world
    → (c.world.destroyed ≡ false)
      × ((c' : Connection) × (handle_event e k c ≡ some c') × IsSound c')
handle_event_lem {c} e k r f = served_alive e k c f (Reaches-IsSound r)
