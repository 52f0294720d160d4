-- ===== src/Selector/Rounds.antt =====
-- The rounds of src/selector.c: what it calls when `pselect` returns, and the jobs of other threads
-- that have ended.
pub mod Sound
pub mod Select
pub mod Order
pub mod Programs
pub mod Frames
pub mod Full
mod Tests
use tpe2026c1_socks.Prelude.{
  Bool, List, Option, [], get_elem?, if◌then◌else◌, none, not, some, suc, true, zero, ℕ, ◌&&◌, ◌+◌,
  ◌==◌, ◌>>=◌, ◌∷◌,
}
use tpe2026c1_socks.Selector.{
  Item, Selector, SelectorStatus, selector_enomem, selector_io, selector_success,
}

-- The members of `fd_handler` that a round calls.
pub data Member : Type 0 where
  reading writing blocking : Member

-- The callbacks, over a state that they share with the selector: the member, whose handler it is of,
-- and the descriptor and the data of `struct selector_key`. A member that is NULL is none.
abbrev pub Callbacks : Type 0 → Type 0 → Type 0
Callbacks D W = Member → D → ℕ → D → Selector D × W → Option (Selector D × W)

-- `slave_r` and `slave_w` as `pselect` leaves them.
pub record Ready : Type 0 where
  pub slave_r : ℕ → Bool
  pub slave_w : ℕ → Bool

-- `errno` of `pselect`.
pub data SelectErrno : Type 0 where
  eagain eintr ebadf other_errno : SelectErrno

pub data SelectResult : Type 0 where
  select_failed : SelectErrno → SelectResult
  select_ready : Ready → SelectResult

module _ {D W : Type 0} (run : Callbacks D W) where
  -- A call through `item`, with the data of the key.
  unfoldable pub call_item :
      Bool → Member → Option D → ℕ → Option D → Selector D × W → Option (Selector D × W)
  call_item b ev handler fd data_of st =
      if b then (do h ← handler; d ← data_of; run ev h fd d st) else some st

  -- The second half of a turn: `item` points into the table as it was before the first half.
  unfoldable pub write_turn :
      Ready → ℕ → ℕ → ℕ → Option D → Selector D × W → Option (Selector D × W)
  unfolding call_item
  write_turn r i size fd data_of (s, w) =
      if not (r.slave_w i)
      then some (s, w)
      else if s.fd_size == size
      then (do
        it' ← get_elem? s.fds i
        call_item it'.interest.op_write writing it'.attached fd data_of (s, w))
      else none

  -- A turn of the loop of `handle_iteration`.
  unfoldable pub turn : Ready → ℕ → Selector D × W → Option (Selector D × W)
  unfolding call_item write_turn
  turn r i (s, w) = do
    it ← get_elem? s.fds i
    elim it.fd [
      | none ↦ some (s, w)
      | some fd ↦ (do
        st ←
            call_item (r.slave_r fd && it.interest.op_read) reading it.attached fd it.attached
              (s, w)
        write_turn r i s.fd_size fd it.attached st)
    ]

  -- The loop, from `i` on, for as many descriptors.
  unfoldable pub turns : Ready → ℕ → ℕ → Selector D × W → Option (Selector D × W)
  turns r zero i st = some st
  turns r (suc m) i st = do st' ← turn r i st; turns r m (suc i) st'

  unfoldable pub handle_iteration : Ready → Selector D × W → Option (Selector D × W)
  handle_iteration r (s, w) = turns r (s.max_fd + 1) 0 (s, w)

  -- The loop over the jobs. The mutex is held, so that no thread adds one.
  unfoldable pub notify_jobs : List ℕ → Selector D × W → Option (Selector D × W)
  unfolding call_item
  notify_jobs [] st = some st
  notify_jobs (j ∷ js) (s, w) = do
    it ← get_elem? s.fds j
    st ← (elim it.fd [
      | none ↦ some (s, w)
      | some fd ↦ call_item true blocking it.attached fd it.attached (s, w)
    ])
    notify_jobs js st

  unfoldable pub handle_block_notifications : Selector D × W → Option (Selector D × W)
  handle_block_notifications (s, w) = do
    (s', w') ← notify_jobs s.resolution_jobs (s, w)
    some (record s' { resolution_jobs = [] }, w')

  unfoldable pub notified : Selector D × W → Option (SelectorStatus × (Selector D × W))
  notified st = do st' ← handle_block_notifications st; some (selector_success, st')

  -- `selector_select`, with what `pselect` returned.
  unfoldable pub selector_select :
      SelectResult → Selector D × W → Option (SelectorStatus × (Selector D × W))
  selector_select (select_failed eagain) st = notified st
  selector_select (select_failed eintr) st = notified st
  selector_select (select_failed ebadf) st = some (selector_io, st)
  selector_select (select_failed other_errno) st = some (selector_io, st)
  selector_select (select_ready r) st = do st' ← handle_iteration r st; notified st'

-- `selector_notify_block`; `allocates` says whether `malloc` succeeds.
unfoldable pub selector_notify_block :
    {D : Type 0} → Bool → Selector D → ℕ → SelectorStatus × Selector D
selector_notify_block allocates s fd =
    if allocates
    then (selector_success, record s { resolution_jobs = fd ∷ s.resolution_jobs })
    else (selector_enomem, s)
