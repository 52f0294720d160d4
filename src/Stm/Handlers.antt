-- ===== src/Stm/Handlers.antt =====
-- The event handlers of src/stm.c on a machine that `stm_init` let through.
use tpe2026c1_socks.Stm.{
  StateMachine, StateDefinition, call, arrive, depart, first_from, handle_first, handler, jump,
  stm_state,
}
use tpe2026c1_socks.Stm.Valid.{Numbered}
use tpe2026c1_socks.Prelude.{
  List, Option, ap, arith, get_elem?, none, refl, some, suc, zero, ℕ, ◌+◌, ◌<◌, ◌>>=◌, ◌∙◌, ◌≡◌,
  ◌≤◌, ==_iff, Bool-cases, false, inl, inr, ltb, sym, ◌==◌, ◌≢◌, ◌⊎◌,
}

abbrev pub Inside : Option ℕ → ℕ → Type 0
Inside none max = Unit
Inside (some i) max = i ≤ max

pub record IsValid {K : Type 0} (m : StateMachine K) : Type 0 where
  pub numbered : Numbered m.states 0 (suc m.max_state)
  pub start : m.initial ≤ m.max_state
  pub inside : Inside m.current m.max_state

-- The state in which the next event finds the machine.
abbrev pub here : {K : Type 0} → StateMachine K → Option ℕ → ℕ
here m none = m.initial
here m (some i) = i

-- No callback that is run on the way in or out of a state aborts.
abbrev pub HooksReturn : {K : Type 0} → StateMachine K → Type 0
HooksReturn {K} m =
    (i : ℕ) (d : StateDefinition K)
    → get_elem? m.states i ≡ some d
    → (s : ℕ) (k : K)
    → ((k' : K) × (call d.on_arrival s k ≡ some k'))
      × ((k' : K) × (call d.on_departure s k ≡ some k'))

-- The state `i` has a callback for the event, which returns the number of a state.
abbrev pub Responds :
    {K : Type 0} → StateMachine K → (StateDefinition K → Option (K → Option (ℕ × K))) → ℕ → Type 0
Responds {K} m ready i =
    (d : StateDefinition K)
    → get_elem? m.states i ≡ some d
    → (f : K → Option (ℕ × K)) × (ready d ≡ some f)
      × ((k : K) → (ret : ℕ) × (k' : K) × (f k ≡ some (ret, k')) × (ret ≤ m.max_state))

Numbered-get :
    {K : Type 0} (states : List (StateDefinition K)) (i n j : ℕ)
    → Numbered states i n
    → j < n
    → (d : StateDefinition K) × (get_elem? states (i + j) ≡ some d) × (d.state ≡ i + j)
Numbered-get states i zero j h l = absurd (omega (arith, l))
Numbered-get states i (suc n) zero ((d, found, same), h) l =
    (d, ap (get_elem? states) (omega arith) ∙ found, same ∙ omega arith)
Numbered-get states i (suc n) (suc j) ((d, found, same), h) l =
    let (e, f, s) = Numbered-get states (i + 1) n j h (omega arith) in
    (e, ap (get_elem? states) (omega arith) ∙ f, s ∙ omega arith)

pub state_found :
    {K : Type 0} (m : StateMachine K)
    → IsValid m
    → (i : ℕ) → i ≤ m.max_state
    → (d : StateDefinition K) × (get_elem? m.states i ≡ some d) × (d.state ≡ i)
state_found m v i h =
    let z : 0 + i ≡ i = omega arith in
    let (d, found, same) = Numbered-get m.states 0 (suc m.max_state) i v.numbered (omega arith) in
    (d, ap (get_elem? m.states) (sym z) ∙ found, same ∙ z)

pub inside : {K : Type 0} {m : StateMachine K} → IsValid m → here m m.current ≤ m.max_state
inside {m = m} v = here_at m.current v.inside
  where
    here_at : (c : Option ℕ) → Inside c m.max_state → here m c ≤ m.max_state
    here_at none h = v.start
    here_at (some i) h = h

module _ {K : Type 0} (m : StateMachine K) (v : IsValid m) (hooks : HooksReturn m) where
  arrive_lem :
      (i : ℕ) (k : K)
      → i ≤ m.max_state
      → (k' : K) × (arrive m i k ≡ some (record m { current = some i }, k'))
  unfolding arrive
  arrive_lem i k h =
      let (d, found, same) = state_found m v i h in
      let (k', e) = (hooks i d found d.state k).0 in (k', rw (found, ◌>>=◌, e) refl)

  depart_lem : (i : ℕ) (k : K) → i ≤ m.max_state → (k' : K) × (depart m (some i) k ≡ some k')
  unfolding depart
  depart_lem i k h =
      let (d, found, same) = state_found m v i h in
      let (k', e) = (hooks i d found d.state k).1 in (k', rw (found, ◌>>=◌, e) refl)

  first_lem :
      (c : Option ℕ) (k : K)
      → m.current ≡ c
      → (k' : K) × (first_from m c k ≡ some (record m { current = some (here m c) }, k'))
  unfolding first_from
  first_lem none k e = arrive_lem m.initial k v.start
  first_lem (some i) k e = (k, ap (λ c. some (record m { current = c }, k)) e)

  pub moved_to : (i : ℕ) → i ≤ m.max_state → IsValid (record m { current = some i })
  moved_to i h = record { numbered = v.numbered; start = v.start; inside = h }

-- What an event does: the callback `f` of the state that it finds turns `k1` into `k2` and returns
-- `ret`, and the handler returns `ret` with the machine in that state.
abbrev pub Handles :
    {K : Type 0} → StateMachine K → (StateDefinition K → Option (K → Option (ℕ × K))) → K → Type 0
Handles {K} m ready k =
    (d : StateDefinition K) × (f : K → Option (ℕ × K)) × (k1 : K) × (k2 : K) × (ret : ℕ)
    × (m' : StateMachine K) × (k' : K) × (handler ready m k ≡ some (ret, m', k'))
    × (get_elem? m.states (here m m.current) ≡ some d)
    × (ready d ≡ some f)
    × (handle_first m k ≡ some (record m { current = some (here m m.current) }, k1))
    × (f k1 ≡ some (ret, k2))
    × (m' ≡ record m { current = some ret })
    × IsValid m'
    × (stm_state m' ≡ some ret)
    × ((ret ≢ here m m.current) ⊎ (k' ≡ k2))

module _ {K : Type 0} (m : StateMachine K) (v : IsValid m) (hooks : HooksReturn m) where
  jump_lem :
      (i next : ℕ) (k : K)
      → i ≤ m.max_state
      → next ≤ m.max_state
      → (k' : K) × (jump (record m { current = some i }) next k
          ≡ some (record m { current = some next }, k'))
        × ((next ≢ i) ⊎ (k' ≡ k))
  unfolding jump
  jump_lem i next k h n =
      let there : StateMachine K = record m { current = some i } in
      let low : ltb m.max_state next ≡ false = ground arith in
      elim (Bool-cases (i == next)) [
        | inl same ↦ (
          k,
          rw (low, same)
              (ap (λ t. some (record m { current = some t }, k)) ((==_iff i next).0 same)),
          inr refl,
        )
        | inr other ↦
            let (k1, e1) = depart_lem there (moved_to m v hooks i h) hooks i k h in
            let (k2, e2) = arrive_lem there (moved_to m v hooks i h) hooks next k1 n in
            (k2, rw (low, other, e1, ◌>>=◌) e2, inl (ground (arith, other)))
      ]

  -- An event on a machine that `stm_init` let through, in a state whose callback for the event
  -- returns the number of a state, does not abort where no callback aborts. On the first event the
  -- initial state is entered. Then the callback of the current state for the event is run, once;
  -- the handler returns what it returned, and the machine is then in that state and stays as
  -- `stm_init` checked it. Where that is the current state, nothing else is run.
  pub handler_lem :
      (ready : StateDefinition K → Option (K → Option (ℕ × K))) (k : K)
      → Responds m ready (here m m.current)
      → Handles m ready k
  unfolding handler handle_first stm_state
  handler_lem ready k r =
      let i : ℕ = here m m.current in
      let low_i : i ≤ m.max_state = inside v in
      let (k1, e1) = first_lem m v hooks m.current k refl in
      let (d, found, _) = state_found m v i low_i in
      let (f, has_f, returns) = r d found in
      let (ret, k2, e2, low) = returns k1 in
      let (k3, e3, quiet) = jump_lem i ret k2 low_i low in
      let (d', found', same') = state_found m v ret low in
      (
        d,
        f,
        k1,
        k2,
        ret,
        record m { current = some ret },
        k3,
        rw (e1, found, has_f, e2, ◌>>=◌, e3) refl,
        found,
        has_f,
        e1,
        e2,
        refl,
        moved_to m v hooks ret low,
        rw (found', ◌>>=◌, same') refl,
        quiet,
      )
