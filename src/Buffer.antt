-- ===== src/Buffer.antt =====
-- src/buffer.c and src/buffer.h: the linear byte buffer. A pointer is its offset from `data`.
-- An operation is `none` where an `assert` fails or an access leaves the storage.
pub mod Bounds
pub mod Queue
pub mod Emit
mod Tests
use tpe2026c1_socks.Prelude.{
  ℕ, ◌+◌, ◌-◌, ◌%◌, ◌^◌, ◌*◌, Bool, Option, none, some, List, [], ◌∷◌, ◌>>=◌, Ssize, pos, negsuc,
  Bytes, ltb, leb, ◌==◌, if◌then◌else◌, get_elem?,
}
use tpe2026c1_socks.Prelude.Memory.{store, move_down}

-- `struct buffer`: the storage that `data` points to, and the three other pointers.
pub record Buffer : Type 0 where
  pub storage : Bytes
  pub limit : ℕ
  pub read : ℕ
  pub write : ℕ

-- The difference of two pointers, as a `size_t`.
abbrev pub ptr_diff : ℕ → ℕ → ℕ
ptr_diff p q = (p + 2 ^ 64 - q) % 2 ^ 64

unfoldable pub buffer_reset : Buffer → Buffer
buffer_reset b = record b { read = 0; write = 0 }

unfoldable pub buffer_init : ℕ → Bytes → Buffer
unfolding buffer_reset
buffer_init n storage = record { storage = storage; limit = n; read = 0; write = 0 }

unfoldable pub buffer_can_write : Buffer → Bool
buffer_can_write b = ltb b.write b.limit

-- The offset where bytes may be written, and how many.
unfoldable pub buffer_write_ptr : Buffer → Option (ℕ × ℕ)
buffer_write_ptr b = if leb b.write b.limit then some (b.write, ptr_diff b.limit b.write) else none

unfoldable pub buffer_can_read : Buffer → Bool
buffer_can_read b = ltb b.read b.write

-- The offset where the unread bytes begin, and how many there are.
unfoldable pub buffer_read_ptr : Buffer → Option (ℕ × ℕ)
buffer_read_ptr b = if leb b.read b.write then some (b.read, ptr_diff b.write b.read) else none

unfoldable pub buffer_compact : Buffer → Option Buffer
buffer_compact b =
    if b.read == 0
    then some b
    else if b.read == b.write
    then some (record b { read = 0; write = 0 })
    else do
      let n = ptr_diff b.write b.read
      d ← move_down b.storage b.read n
      some (record b { storage = d; read = 0; write = n })

unfoldable pub buffer_write_adv : Buffer → Ssize → Option Buffer
buffer_write_adv b (negsuc n) = some b
buffer_write_adv b (pos n) =
    if leb (b.write + n) b.limit then some (record b { write = b.write + n }) else none

unfoldable pub buffer_read_adv : Buffer → Ssize → Option Buffer
buffer_read_adv b (negsuc n) = some b
buffer_read_adv b (pos n) =
    let b' = record b { read = b.read + n } in
    if leb (b.read + n) b.write
    then (if b.read + n == b.write then buffer_compact b' else some b')
    else none

unfoldable pub buffer_read : Buffer → Option (ℕ × Buffer)
unfolding buffer_can_read
buffer_read b =
    if buffer_can_read b
    then (do c ← get_elem? b.storage b.read; b' ← buffer_read_adv b (pos 1); some (c, b'))
    else some (0, b)

unfoldable pub buffer_write : Buffer → ℕ → Option Buffer
unfolding buffer_can_write
buffer_write b c =
    if buffer_can_write b
    then (do
      d ← store b.storage b.write (c ∷ [])
      buffer_write_adv (record b { storage = d }) (pos 1))
    else some b
