-- ===== src/Socks5/Engine.antt =====
-- The table of src/socks5.c as the engine of src/stm.c takes it.
use tpe2026c1_socks.Stm.Invariant.{Serves, Arrives, Lands, Quiet, handler_keeps}
use tpe2026c1_socks.Stm.Handlers.{IsValid, Inside, here}
use tpe2026c1_socks.Prelude.{
  All, All-get, Option, ap, arith, get_elem?, inl, inr, none, refl, some, some_inj, suc, sym, ℕ,
  ◌∙◌, ◌≡◌, ◌≤◌,
}
use tpe2026c1_socks.Socks5.Copy.{Side, copy_arrival}
use tpe2026c1_socks.Socks5.Keeps.Copying.{copy_arrival-Arrives}
use tpe2026c1_socks.Socks5.Keeps.Requesting.{request_write_arrival-Arrives, resolv_arrival-Arrives}
use tpe2026c1_socks.Socks5.Request.{resolv_arrival}
use tpe2026c1_socks.Socks5.Serves.{Called, number-le}
use tpe2026c1_socks.Socks5.Sound.{
  Enters, InStage, Moves, Stage, StateInv, StatePre, auth_reading, auth_writing, connecting,
  copying, ended, failing, goes_to, hello_reading, hello_writing, replying, request_reading,
  resolving_name, stays_in, number,
}
use tpe2026c1_socks.Socks5.State.{Kernel, World, error_state}
use tpe2026c1_socks.Socks5.Table.{machine, states}
use tpe2026c1_socks.Stm.{StateDefinition, call, handler}
use tpe2026c1_socks.Stm.Valid.{Numbered}

module _ (side : Side) (k : Kernel) where
  table-Numbered : Numbered (states side k) 0 (suc error_state)
  unfolding states
  table-Numbered = (
    (_, refl, refl),
    (
      (_, refl, refl),
      (
        (_, refl, refl),
        (
          (_, refl, refl),
          (
            (_, refl, refl),
            (
              (_, refl, refl),
              (
                (_, refl, refl),
                ((_, refl, refl), ((_, refl, refl), ((_, refl, refl), ((_, refl, refl), tt)))),
              ),
            ),
          ),
        ),
      ),
    ),
  )

  no_departures : All (λ d. d.on_departure ≡ none) (states side k)
  unfolding states
  no_departures =
      (refl, (refl, (refl, (refl, (refl, (refl, (refl, (refl, (refl, (refl, (refl, tt)))))))))))

  machine-IsValid : (o : Option ℕ) → Inside o error_state → IsValid (machine side k o)
  unfolding machine
  machine-IsValid o h = record { numbered = table-Numbered; start = omega arith; inside = h }

  machine-Quiet : (o : Option ℕ) → Quiet (machine side k o)
  unfolding machine
  machine-Quiet o = record {
    departs = λ i d e. All-get (λ d. d.on_departure ≡ none) (states side k) i no_departures e;
    starts = λ d e. unfold states in (rw (← some_inj e) refl);
  }

  arrives_at :
      (t : Stage) (d : StateDefinition World) (w : World)
      → get_elem? (states side k) (number t) ≡ some d
      → Enters t w
      → (w' : World) × (call d.on_arrival (number t) w ≡ some w') × InStage t w'
  unfolding states call
  arrives_at hello_reading d w e h = rw (← some_inj e) (w, refl, h)
  arrives_at hello_writing d w e h = rw (← some_inj e) (w, refl, h)
  arrives_at auth_reading d w e h = rw (← some_inj e) (w, refl, h)
  arrives_at auth_writing d w e h = rw (← some_inj e) (w, refl, h)
  arrives_at request_reading d w e h = rw (← some_inj e) (w, refl, h)
  arrives_at resolving_name d w e h =
      rw (← some_inj e) (resolv_arrival w, refl, resolv_arrival-Arrives w h)
  arrives_at connecting d w e h = rw (← some_inj e) (w, refl, h)
  arrives_at replying d w e h = rw (← some_inj e) (request_write_arrival-Arrives k w h)
  arrives_at copying d w e h = rw (← some_inj e) (copy_arrival w, refl, copy_arrival-Arrives w h)
  arrives_at ended d w e h = rw (← some_inj e) (w, refl, h)
  arrives_at failing d w e h = rw (← some_inj e) (w, refl, h)

  machine-Arrives : (o : Option ℕ) → Arrives (machine side k o) StateInv StatePre
  unfolding machine
  machine-Arrives o i d e w (t, n, h) =
      let found : get_elem? (states side k) (number t) ≡ some d =
        ap (get_elem? (states side k)) (sym n) ∙ e in
      let (w', q, v) = arrives_at t d w found h in
      (w', ap (λ j. call d.on_arrival j w) n ∙ q, (t, n, v))

-- A callback that runs lands as the engine wants it.
Moves-land :
    (t : Stage) (i n : ℕ) (w : World)
    → i ≡ number t
    → Moves t n w
    → (n ≤ error_state) × Lands StateInv StatePre i n w
Moves-land t i n w e (stays_in f h) = (omega (arith, number-le t), inl (e ∙ sym f, (t, f, h)))
Moves-land t i n w e (goes_to u f ne h) =
    (omega (arith, number-le u), inr (λ q. ne (sym e ∙ q ∙ f), (u, f, h)))

module _ (side : Side) (k : Kernel)
    (ready : StateDefinition World → Option (World → Option (ℕ × World))) where
  -- An event for which the callback of the stage is called.
  abbrev pub Calls : Stage → World → Type 0
  Calls t w =
      (d : StateDefinition World)
      → get_elem? (states side k) (number t) ≡ some d
      → Called t (ready d) w

  Calls-serve :
      (o : Option ℕ) (t : Stage) (i : ℕ) (w : World)
      → i ≡ number t
      → Calls t w
      → Serves (machine side k o) StateInv StatePre ready i w
  unfolding machine
  Calls-serve o t i w e calls d found =
      let (f, has_f, (n, w', q, m)) = calls d (ap (get_elem? (states side k)) (sym e) ∙ found) in
      let (low, lands) = Moves-land t i n w' e m in (f, has_f, (n, w', q, low, lands))

  -- The engine runs the callback, and leaves the machine in a state whose invariant holds.
  pub event_runs :
      (o : Option ℕ) (t : Stage) (w : World)
      → Inside o error_state
      → here (machine side k o) o ≡ number t
      → Calls t w
      → (n : ℕ) × (w' : World) × (handler ready (machine side k o) w
          ≡ some (n, machine side k (some n), w'))
        × StateInv n w'
  unfolding machine
  event_runs o t w inside e calls =
      handler_keeps (machine side k o) (machine-IsValid side k o inside) (machine-Quiet side k o)
        StateInv StatePre (machine-Arrives side k o) ready w
        (Calls-serve o t (here (machine side k o) o) w e calls)
