-- ===== src/Selector.antt =====
-- src/selector.c and src/selector.h: the table of registered descriptors. `D` stands for a handler
-- with the data attached to it. An access outside the table and a failed `assert` are `none`.
pub mod Capacity
pub mod Table
pub mod Register
pub mod Unregister
pub mod Grow
pub mod New
pub mod Rounds
mod Tests
use tpe2026c1_socks.Net.{Interest, op_noop}
use tpe2026c1_socks.Prelude.{
  Bool, List, Option, Ssize, [], false, get_elem?, if◌then◌else◌, leb, length, ltb, negsuc, none,
  pos, replicate, set, some, suc, take, true, zero, ℕ, ◌%◌, ◌&&◌, ◌++◌, ◌+◌, ◌-◌, ◌/◌, ◌==◌, ◌>>=◌,
  ◌^◌, ◌∷◌,
}
use tpe2026c1_socks.Stm.{handler}
use tpe2026c1_socks.Users.{cleared}
use Prim.Native.Nat.{max}

pub data SelectorStatus : Type 0 where
  selector_success selector_enomem selector_maxfd selector_iargs : SelectorStatus
  selector_fdinuse selector_io : SelectorStatus

-- `struct item`; `fd` is none where the program keeps FD_UNUSED.
pub record Item (D : Type 0) : Type 0 where
  pub fd : Option ℕ
  pub interest : Interest
  pub attached : Option D

-- `struct fdselector`: a set of descriptors tells which are members.
pub record Selector (D : Type 0) : Type 0 where
  pub fds : List (Item D)
  pub fd_size : ℕ
  pub max_fd : ℕ
  pub master_r : ℕ → Bool
  pub master_w : ℕ → Bool
  pub resolution_jobs : List ℕ

-- `FD_SETSIZE` on the program's platform.
abbrev pub items_max_size : ℕ
items_max_size = 1024

-- The loop of `next_capacity`, with fuel: how many bits `tmp` has.
unfoldable pub count_bits : ℕ → ℕ → ℕ → Option ℕ
count_bits zero tmp bits = none
count_bits (suc fuel) tmp bits =
    let rest = count_bits fuel (tmp / 2) (bits + 1) in if tmp == 0 then some bits else rest

unfoldable pub next_capacity : ℕ → Option ℕ
unfolding count_bits
next_capacity n = do
  bits ← count_bits (suc n) n 0
  let tmp = 2 ^ bits % 2 ^ 64
  if leb n tmp then some ((if ltb items_max_size tmp then items_max_size else tmp) + 1) else none

-- `item_init` on cleared memory.
abbrev pub unused : {D : Type 0} → Item D
unused = record { fd = none; interest = op_noop; attached = none }

-- `ITEM_USED`
abbrev pub is_used : {D : Type 0} → Item D → Bool
is_used it = elim it.fd [ none ↦ false | some _ ↦ true ]

-- The loop of `items_max_fd` over the items up to `max_fd`.
unfoldable pub max_of : {D : Type 0} → ℕ → List (Item D) → ℕ
max_of m [] = m
max_of m (it ∷ its) = elim it.fd [ none ↦ max_of m its | some n ↦ max_of (max m n) its ]

unfoldable pub items_max_fd : {D : Type 0} → Selector D → Option ℕ
unfolding max_of
items_max_fd s =
    if ltb s.max_fd (length s.fds) then some (max_of 0 (take (s.max_fd + 1) s.fds)) else none

-- A set with the membership of `fd` changed.
abbrev pub put : ℕ → Bool → (ℕ → Bool) → ℕ → Bool
put fd b set n = if n == fd then b else set n

-- `items_update_fdset_for_fd`, on the item of `fd`.
unfoldable pub update_sets : {D : Type 0} → Selector D → ℕ → Item D → Selector D
update_sets s fd it = record s {
  master_r = put fd (is_used it && it.interest.op_read) s.master_r;
  master_w = put fd (is_used it && it.interest.op_write) s.master_w;
}

-- The table grown to `size` items. `realloc` leaves what is behind `fd` in a new item unset; here it
-- is blank, as `calloc` leaves it.
unfoldable pub grow : {D : Type 0} → Selector D → ℕ → Selector D
grow s size = record s { fds = s.fds ++ replicate (size - s.fd_size) unused; fd_size = size }

-- `ensure_capacity`; `allocates` says whether `calloc` or `realloc` succeeds. The new size is at most
-- FD_SETSIZE + 1, so that its test for an overflow never fires.
unfoldable pub ensure_capacity :
    {D : Type 0} → Bool → Selector D → ℕ → Option (SelectorStatus × Selector D)
unfolding grow
ensure_capacity allocates s n =
    if ltb n s.fd_size
    then some (selector_success, s)
    else if ltb items_max_size n
    then some (selector_maxfd, s)
    else do
      size ← next_capacity n
      some (if allocates then (selector_success, grow s size) else (selector_enomem, s))

-- `!INVALID_FD(fd)`
abbrev pub valid_fd : Ssize → Option ℕ
valid_fd (negsuc n) = none
valid_fd (pos n) = if ltb n items_max_size then some n else none

-- A registered item.
abbrev pub new_item : {D : Type 0} → ℕ → D → Interest → Item D
new_item n d i = record { fd = some n; interest = i; attached = some d }

-- The end of `selector_register`, with the room made.
unfoldable pub register_at :
    {D : Type 0} → Selector D → ℕ → D → Interest → Option (SelectorStatus × Selector D)
unfolding update_sets
register_at s n d i = do
  it ← get_elem? s.fds n
  let new = new_item n d i
  some (
      if is_used it then (selector_fdinuse, s) else (
        selector_success,
        update_sets
            (record s { fds = set s.fds n new; max_fd = if ltb s.max_fd n then n else s.max_fd }) n
            new,
      ))

-- What `ensure_capacity` returned.
unfoldable pub register_room :
    {D : Type 0}
    → ℕ
    → D
    → Interest
    → SelectorStatus × Selector D
    → Option (SelectorStatus × Selector D)
register_room n d i (selector_success, s) = register_at s n d i
register_room n d i (e, s) = some (e, s)

unfoldable pub register_valid :
    {D : Type 0} → Bool → Selector D → ℕ → D → Interest → Option (SelectorStatus × Selector D)
register_valid allocates s n d i =
    if ltb s.fd_size n
    then (do r ← ensure_capacity allocates s n; register_room n d i r)
    else register_at s n d i

-- `selector_register`; a handler that is NULL is none.
unfoldable pub selector_register :
    {D : Type 0}
    → Bool
    → Selector D
    → Ssize
    → Option D
    → Interest
    → Option (SelectorStatus × Selector D)
selector_register allocates s fd handler i = elim (valid_fd fd) [
  | none ↦ some (selector_iargs, s)
  | some n ↦ elim handler [
    | none ↦ some (selector_iargs, s)
    | some d ↦ register_valid allocates s n d i
  ]
]

-- `selector_unregister_fd` behind its test of the arguments, with what `handle_close` is called on. The program's callbacks do not
-- call the selector there.
unfoldable pub unregister_valid :
    {D : Type 0} → Selector D → ℕ → Option (SelectorStatus × Selector D × Option D)
unfolding update_sets
unregister_valid s n = do
  it ← get_elem? s.fds n
  let s' = update_sets s n (record it { interest = op_noop })
  let s2 = record s' { fds = set s'.fds n unused }
  let cleared = (do
    m ← items_max_fd s2
    some (selector_success, record s2 { max_fd = m }, it.attached))
  if is_used it then cleared else some (selector_iargs, s, none)

unfoldable pub selector_unregister_fd :
    {D : Type 0} → Selector D → Ssize → Option (SelectorStatus × Selector D × Option D)
selector_unregister_fd s fd = elim (valid_fd fd) [
  | none ↦ some (selector_iargs, s, none)
  | some n ↦ unregister_valid s n
]

unfoldable pub interest_valid :
    {D : Type 0} → Selector D → ℕ → Interest → Option (SelectorStatus × Selector D)
unfolding update_sets
interest_valid s n i = do
  it ← get_elem? s.fds n
  let it' = record it { interest = i }
  some (
      if is_used it
      then (selector_success, update_sets (record s { fds = set s.fds n it' }) n it')
      else (selector_iargs, s))

unfoldable pub selector_set_interest :
    {D : Type 0} → Selector D → Ssize → Interest → Option (SelectorStatus × Selector D)
selector_set_interest s fd i = elim (valid_fd fd) [
  | none ↦ some (selector_iargs, s)
  | some n ↦ interest_valid s n i
]
