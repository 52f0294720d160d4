-- ===== src/Selector/Rounds/Programs.antt =====
-- Callbacks as the program writes them: they call the selector through its operations only, and do
-- with the rest of the program what they like. A round of src/selector.c with any such callbacks.
use tpe2026c1_socks.Net.{Interest}
use tpe2026c1_socks.Prelude.{Bool, Option, Ssize, false, if◌then◌else◌, none, some, true, ℕ, ◌>>=◌}
use tpe2026c1_socks.Selector.{
  Selector, SelectorStatus, selector_register, selector_set_interest, selector_unregister_fd,
}
use tpe2026c1_socks.Selector.Rounds.{Callbacks, Member, blocking, reading, writing}
use tpe2026c1_socks.Selector.Table.{registered}

-- A call of the selector.
pub data Request (D : Type 0) : Type 0 where
  registers : Ssize → Option D → Interest → Request D
  unregisters : Ssize → Request D
  sets_interest : Ssize → Interest → Request D

-- What a callback does: it ends with the state `w` of the rest of the program, or it calls the
-- selector and goes on by the status, and by the data that `handle_close` was called on.
pub data Program (D W : Type 0) : Type 0 where
  ends : W → Program D W
  asks : Request D → (SelectorStatus → Option D → Program D W) → Program D W

abbrev pub without_close :
    {D : Type 0}
    → Option (SelectorStatus × Selector D)
    → Option (SelectorStatus × Selector D × Option D)
without_close none = none
without_close (some (st, s)) = some (st, s, none)

unfoldable pub perform :
    {D : Type 0} → Bool → Selector D → Request D → Option (SelectorStatus × Selector D × Option D)
perform allocates s (registers fd h i) = without_close (selector_register allocates s fd h i)
perform allocates s (unregisters fd) = selector_unregister_fd s fd
perform allocates s (sets_interest fd i) = without_close (selector_set_interest s fd i)

unfoldable pub run_program :
    {D W : Type 0} → Bool → Program D W → Selector D → Option (Selector D × W)
unfolding perform
run_program allocates (ends w) s = some (s, w)
run_program allocates (asks q k) s = do
  (st, s', d) ← perform allocates s q
  run_program allocates (k st d) s'

-- Whether a member may be called on a descriptor with this entry.
abbrev pub may_call : {D : Type 0} → Member → Option (Interest × D) → Bool
may_call ev none = false
may_call reading (some (i, d)) = i.op_read
may_call writing (some (i, d)) = i.op_write
may_call blocking (some (i, d)) = true

-- The callbacks that run these programs. A call on a descriptor that is not registered, or not
-- with the interest, aborts.
abbrev pub running : {D W : Type 0} → Bool → (Member → D → ℕ → D → W → Program D W) → Callbacks D W
running allocates programs ev h fd d (s, w) =
    if may_call ev (registered s.fds fd)
    then run_program allocates (programs ev h fd d w) s
    else none

abbrev pub Anything : {D W : Type 0} → (ℕ → Option (Interest × D)) → W → Type 0
Anything f w = Unit
