-- ===== src/Stm/Invariant.antt =====
-- An invariant of the states of a machine of src/stm.c, through one event.
use tpe2026c1_socks.Prelude.{
  ==_iff, Option, ap, arith, false, get_elem?, inl, inr, ltb, none, refl, some, ℕ, ◌==◌, ◌>>=◌, ◌≡◌,
  ◌≢◌, ◌≤◌, ◌⊎◌,
}
use tpe2026c1_socks.Stm.{
  StateDefinition, StateMachine, arrive, call, depart, first_from, handle_first, handler, jump,
}
use tpe2026c1_socks.Stm.Handlers.{IsValid, here, state_found, inside}
use Prim.Native.Nat.{ℕ, ℕ, ℕ, ℕ, ℕ}

-- What a callback of state `i` leaves: it stays in the state and keeps its invariant, or goes on to
-- another state with what that state's `on_arrival` starts from.
abbrev pub Lands : {K : Type 0} → (ℕ → K → Type 0) → (ℕ → K → Type 0) → ℕ → ℕ → K → Type 0
Lands Inv Pre i ret k = ((i ≡ ret) × Inv ret k) ⊎ ((i ≢ ret) × Pre ret k)

-- Each `on_arrival` turns what it starts from into the invariant of its state.
abbrev pub Arrives : {K : Type 0} → StateMachine K → (ℕ → K → Type 0) → (ℕ → K → Type 0) → Type 0
Arrives {K} m Inv Pre =
    (i : ℕ) (d : StateDefinition K)
    → get_elem? m.states i ≡ some d
    → (k : K) → Pre i k
    → (k' : K) × (call d.on_arrival i k ≡ some k') × Inv i k'

-- No state has an `on_departure`, and the initial one no `on_arrival`.
pub record Quiet {K : Type 0} (m : StateMachine K) : Type 0 where
  pub departs :
      (i : ℕ) (d : StateDefinition K) → get_elem? m.states i ≡ some d → d.on_departure ≡ none
  pub starts : (d : StateDefinition K) → get_elem? m.states m.initial ≡ some d → d.on_arrival ≡ none

-- The callback for the event in state `i` exists and lands.
abbrev pub Serves :
    {K : Type 0}
    → StateMachine K
    → (ℕ → K → Type 0)
    → (ℕ → K → Type 0)
    → (StateDefinition K → Option (K → Option (ℕ × K)))
    → ℕ
    → K
    → Type 0
Serves {K} m Inv Pre ready i k =
    (d : StateDefinition K)
    → get_elem? m.states i ≡ some d
    → (f : K → Option (ℕ × K)) × (ready d ≡ some f)
      × ((ret : ℕ) × (k' : K) × (f k ≡ some (ret, k'))
          × (ret ≤ m.max_state)
          × Lands Inv Pre i ret k')

module _ {K : Type 0} (m : StateMachine K) (v : IsValid m) (q : Quiet m) (Inv Pre : ℕ → K → Type 0)
    (arrives : Arrives m Inv Pre) where
  first_quiet :
      (c : Option ℕ) (k : K)
      → m.current ≡ c
      → first_from m c k ≡ some (record m { current = some (here m c) }, k)
  unfolding first_from arrive call
  first_quiet none k e =
      let (d, found, same) = state_found m v m.initial v.start in
      rw (found, ◌>>=◌, q.starts d found) refl
  first_quiet (some i) k e = ap (λ c. some (record m { current = c }, k)) e

  depart_quiet : (i : ℕ) (k : K) → i ≤ m.max_state → depart m (some i) k ≡ some k
  unfolding depart call
  depart_quiet i k h =
      let (d, found, same) = state_found m v i h in rw (found, ◌>>=◌, q.departs i d found) refl

  arrive_keeps :
      (i : ℕ) (k : K)
      → i ≤ m.max_state
      → Pre i k
      → (k' : K) × (arrive m i k ≡ some (record m { current = some i }, k')) × Inv i k'
  unfolding arrive
  arrive_keeps i k h p =
      let (d, found, same) = state_found m v i h in
      let (k', e, inv) = arrives i d found k p in (k', rw (found, ◌>>=◌, same, e) refl, inv)

  jump_keeps :
      (i ret : ℕ) (k : K)
      → i ≤ m.max_state
      → ret ≤ m.max_state
      → Lands Inv Pre i ret k
      → (k' : K) × (jump (record m { current = some i }) ret k
          ≡ some (record m { current = some ret }, k'))
        × Inv ret k'
  unfolding jump
  jump_keeps i ret k h n (inl (same, inv)) =
      let low : ltb m.max_state ret ≡ false = ground arith in
      (
        k,
        rw (low, (==_iff i ret).1 same) (ap (λ t. some (record m { current = some t }, k)) same),
        inv,
      )
  jump_keeps i ret k h n (inr (other, pre)) =
      let low : ltb m.max_state ret ≡ false = ground arith in
      let differs : (i == ret) ≡ false = ground arith in
      let (k', e, inv) = arrive_keeps ret k n pre in
      (k', rw (low, differs, depart_quiet i k h, ◌>>=◌) e, inv)

  -- An event that finds the machine in a state whose invariant holds, with a callback that lands,
  -- does not abort; it returns the state that the machine is then in, with its invariant.
  pub handler_keeps :
      (ready : StateDefinition K → Option (K → Option (ℕ × K))) (k : K)
      → Serves m Inv Pre ready (here m m.current) k
      → (ret : ℕ) × (k' : K) × (handler ready m k ≡ some (ret, record m { current = some ret }, k'))
        × Inv ret k'
  unfolding handler handle_first
  handler_keeps ready k serves =
      let i : ℕ = here m m.current in
      let (d, found, _) = state_found m v i (inside v) in
      let (f, has_f, (ret, k2, e2, low, lands)) = serves d found in
      let (k3, e3, inv) = jump_keeps i ret k2 (inside v) low lands in
      (ret, k3, rw (first_quiet m.current k refl, ◌>>=◌, found, has_f, e2, e3) refl, inv)
