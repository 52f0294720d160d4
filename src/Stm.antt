-- ===== src/Stm.antt =====
-- src/stm.c and src/stm.h: the state machine engine. `K` is all that the callbacks see through the
-- selector's key; a callback that aborts is `none`. A pointer to a state is its index.
pub mod Valid
pub mod Handlers
pub mod Invariant
mod Tests
use tpe2026c1_socks.Prelude.{
  if◌then◌else◌, Bool, List, Option, false, get_elem?, ltb, none, some, suc, zero, ℕ, ◌+◌, ◌==◌,
  ◌>>=◌,
}

pub record StateDefinition (K : Type 0) : Type 0 where
  pub state : ℕ
  pub on_arrival : Option (ℕ → K → Option K)
  pub on_departure : Option (ℕ → K → Option K)
  pub on_read_ready : Option (K → Option (ℕ × K))
  pub on_write_ready : Option (K → Option (ℕ × K))
  pub on_block_ready : Option (K → Option (ℕ × K))

pub record StateMachine (K : Type 0) : Type 0 where
  pub initial : ℕ
  pub states : List (StateDefinition K)
  pub max_state : ℕ
  pub current : Option ℕ

-- The loop of `stm_init` from index `i` on, for `n` states: `none` where it aborts.
unfoldable pub check_from : {K : Type 0} → List (StateDefinition K) → ℕ → ℕ → Option ℕ
check_from states i zero = some i
check_from states i (suc n) = do
  d ← get_elem? states i
  let rest = check_from states (i + 1) n
  if i == d.state then rest else none

unfoldable pub stm_init : {K : Type 0} → StateMachine K → Option (StateMachine K)
unfolding check_from
stm_init m = do
  last ← check_from m.states 0 (suc m.max_state)
  if ltb m.initial m.max_state then some (record m { current = none }) else none

-- A call of `on_arrival` or `on_departure`, which may be NULL.
unfoldable pub call : {K : Type 0} → Option (ℕ → K → Option K) → ℕ → K → Option K
call none s k = some k
call (some f) s k = f s k

unfoldable pub arrive : {K : Type 0} → StateMachine K → ℕ → K → Option (StateMachine K × K)
unfolding call
arrive m next k = do
  d ← get_elem? m.states next
  k' ← call d.on_arrival d.state k
  some (record m { current = some next }, k')

unfoldable pub depart : {K : Type 0} → StateMachine K → Option ℕ → K → Option K
unfolding call
depart m none k = some k
depart m (some i) k = do d ← get_elem? m.states i; call d.on_departure d.state k

-- `handle_first`, on the current state.
unfoldable pub first_from :
    {K : Type 0} → StateMachine K → Option ℕ → K → Option (StateMachine K × K)
unfolding arrive
first_from m none k = arrive m m.initial k
first_from m (some i) k = some (m, k)

unfoldable pub handle_first : {K : Type 0} → StateMachine K → K → Option (StateMachine K × K)
unfolding first_from
handle_first m k = first_from m m.current k

-- Whether `current` points to the state `next`.
abbrev pub is_at : Option ℕ → ℕ → Bool
is_at none next = false
is_at (some i) next = i == next

unfoldable pub jump : {K : Type 0} → StateMachine K → ℕ → K → Option (StateMachine K × K)
unfolding depart arrive
jump m next k =
    if ltb m.max_state next
    then none
    else if is_at m.current next
    then some (m, k)
    else do k' ← depart m m.current k; arrive m next k'

-- The body that the three handlers share; `ready` takes the callback of the event.
unfoldable pub handler :
    {K : Type 0}
    → (StateDefinition K → Option (K → Option (ℕ × K)))
    → StateMachine K
    → K
    → Option (ℕ × StateMachine K × K)
handler ready m k = do
  (m1, k1) ← handle_first m k
  i ← m1.current
  d ← get_elem? m1.states i
  f ← ready d
  (ret, k2) ← f k1
  (m2, k3) ← jump m1 ret k2
  some (ret, m2, k3)

unfoldable pub stm_handler_read :
    {K : Type 0} → StateMachine K → K → Option (ℕ × StateMachine K × K)
unfolding handler
stm_handler_read m k = handler (λ d. d.on_read_ready) m k

unfoldable pub stm_handler_write :
    {K : Type 0} → StateMachine K → K → Option (ℕ × StateMachine K × K)
unfolding handler
stm_handler_write m k = handler (λ d. d.on_write_ready) m k

unfoldable pub stm_handler_block :
    {K : Type 0} → StateMachine K → K → Option (ℕ × StateMachine K × K)
unfolding handler
stm_handler_block m k = handler (λ d. d.on_block_ready) m k

unfoldable pub stm_handler_close : {K : Type 0} → StateMachine K → K → Option K
unfolding depart
stm_handler_close m k = depart m m.current k

-- The identifier of the state that `current` points to, or the initial one.
unfoldable pub state_at : {K : Type 0} → StateMachine K → Option ℕ → Option ℕ
state_at m none = some m.initial
state_at m (some i) = do d ← get_elem? m.states i; some d.state

unfoldable pub stm_state : {K : Type 0} → StateMachine K → Option ℕ
unfolding state_at
stm_state m = state_at m m.current
