-- ===== src/Stm/Valid.antt =====
-- What `stm_init` of src/stm.c checks, and what the handlers rely on.
use tpe2026c1_socks.Stm.{StateMachine, StateDefinition, check_from, stm_init}
use tpe2026c1_socks.Prelude.{
  ==_iff, ==_refl, Bool-cases, List, Option-cases, ap, arith, get_elem?, inl, inr, ltb, ltb→lt,
  lt→ltb, none, some, suc, sym, zero, ℕ, ◌+◌, ◌<◌, ◌==◌, ◌>>=◌, ◌↔◌, ◌∙◌, ◌≡◌,
}

-- The states from index `i` on, `n` of them, are there and carry their indices.
abbrev pub Numbered : {K : Type 0} → List (StateDefinition K) → ℕ → ℕ → Type 0
Numbered states i zero = Unit
Numbered {K} states i (suc n) =
    ((d : StateDefinition K) × (get_elem? states i ≡ some d) × (d.state ≡ i))
    × Numbered states (i + 1) n

check_from-Numbered :
    {K : Type 0} (states : List (StateDefinition K)) (i n : ℕ) {j : ℕ}
    → check_from states i n ≡ some j
    → Numbered states i n
unfolding check_from
check_from-Numbered states i zero e = tt
check_from-Numbered states i (suc n) e = elim (Option-cases (get_elem? states i)) [
  | inl missing ↦ absurd (cc (rw (missing, ◌>>=◌) at e))
  | inr (d, found) ↦ elim (Bool-cases (i == d.state)) [
    | inl same ↦ (
      (d, found, sym ((==_iff i d.state).0 same)),
      check_from-Numbered states (i + 1) n (rw (found, ◌>>=◌, same) at e),
    )
    | inr other ↦ absurd (cc (rw (found, ◌>>=◌, other) at e))
  ]
]

Numbered-check_from :
    {K : Type 0} (states : List (StateDefinition K)) (i n : ℕ)
    → Numbered states i n
    → check_from states i n ≡ some (i + n)
unfolding check_from
Numbered-check_from states i zero h = ap some (omega arith)
Numbered-check_from states i (suc n) ((d, found, same), h) =
    rw (found, ◌>>=◌, same, ==_refl i)
      (Numbered-check_from states (i + 1) n h ∙ ap some (omega arith))

-- `stm_init` does not abort exactly on a table whose states, with the indices from 0 to `max_state` and
-- so one more than `max_state`, stand at their own indices, with an initial state below `max_state`;
-- it then forgets the current state.
pub stm_init_iff :
    {K : Type 0} (m : StateMachine K)
    → (stm_init m ≡ some (record m { current = none }))
      ↔ (Numbered m.states 0 (suc m.max_state) × (m.initial < m.max_state))
unfolding stm_init
stm_init_iff m = (
  λ e. elim (Option-cases (check_from m.states 0 (suc m.max_state))) [
    | inl wrong ↦ absurd (cc (rw (wrong, ◌>>=◌) at e))
    | inr (j, good) ↦ elim (Bool-cases (ltb m.initial m.max_state)) [
      | inl low ↦ (check_from-Numbered m.states 0 (suc m.max_state) good, ltb→lt _ _ low)
      | inr high ↦ absurd (cc (rw (good, ◌>>=◌, high) at e))
    ]
  ],
  λ (h, low). rw (Numbered-check_from m.states 0 (suc m.max_state) h, lt→ltb _ _ low),
)
