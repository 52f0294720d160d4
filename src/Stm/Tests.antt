-- ===== src/Stm/Tests.antt =====
-- A machine of three states for the engine of src/stm.c, whose callbacks log what they see.
use tpe2026c1_socks.Stm.Handlers.{Handles, HooksReturn, Responds, handler_lem, IsValid}
use tpe2026c1_socks.Stm.Valid.{Numbered, stm_init_iff}
use tpe2026c1_socks.Prelude.{
  List, [], arith, none, refl, some, some_inj, suc, zero, ℕ, ◌+◌, ◌<◌, ◌↔◌, ◌∷◌, ◌≡◌,
}
use tpe2026c1_socks.Stm.{
  StateDefinition, StateMachine, call, handle_first, jump, stm_handler_read, stm_init,
}

abbrev toy_state : ℕ → ℕ → StateDefinition (List ℕ)
toy_state i next = record {
  state = i;
  on_arrival = some (λ s log. some ((10 + s) ∷ log));
  on_departure = some (λ s log. some ((20 + s) ∷ log));
  on_read_ready = some (λ log. some (next, log));
  on_write_ready = none;
  on_block_ready = none;
}

abbrev toy : StateMachine (List ℕ)
toy = record {
  initial = 0;
  states = toy_state 0 1 ∷ toy_state 1 2 ∷ toy_state 2 2 ∷ [];
  max_state = 2;
  current = none;
}

-- The first event finds the machine in state 0 and leaves it in state 1.
first_read : stm_handler_read toy [] ≡ some (1, record toy { current = some 1 }, 11 ∷ 20 ∷ 10 ∷ [])
unfolding stm_handler_read handle_first jump
first_read = refl

toy-Numbered : Numbered toy.states 0 3
toy-Numbered =
    ((toy_state 0 1, refl, refl), ((toy_state 1 2, refl, refl), ((toy_state 2 2, refl, refl), tt)))

toy-IsValid : IsValid toy
toy-IsValid = record { numbered = toy-Numbered; start = omega arith; inside = tt }

toy-HooksReturn : HooksReturn toy
unfolding call
toy-HooksReturn zero d e s k = rw (← some_inj e) (((10 + s) ∷ k, refl), ((20 + s) ∷ k, refl))
toy-HooksReturn (suc zero) d e s k = rw (← some_inj e) (((10 + s) ∷ k, refl), ((20 + s) ∷ k, refl))
toy-HooksReturn (suc (suc zero)) d e s k =
    rw (← some_inj e) (((10 + s) ∷ k, refl), ((20 + s) ∷ k, refl))
toy-HooksReturn (suc (suc (suc i))) d e s k = absurd (cc)

toy-Responds : Responds toy (λ d. d.on_read_ready) 0
toy-Responds d e = rw (← some_inj e) ((λ log. some (1, log)), refl, λ k. (1, k, refl, omega arith))

stm_init_iff_example :
    (stm_init toy ≡ some (record toy { current = none })) ↔ (Numbered toy.states 0 3 × (0 < 2))
stm_init_iff_example = stm_init_iff toy

handler_lem_example : Handles toy (λ d. d.on_read_ready) []
handler_lem_example =
    handler_lem toy toy-IsValid toy-HooksReturn (λ d. d.on_read_ready) [] toy-Responds
