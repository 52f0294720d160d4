-- ===== src/Buffer/Bounds.antt =====
-- The invariant of buffer.h, `R <= W <= limit` inside the storage, is kept by every operation, and
-- under it no assertion fails and no access leaves the storage.
use tpe2026c1_socks.Prelude.{
  ℕ, ◌+◌, ◌-◌, ◌^◌, ◌≤◌, ◌<◌, ◌≡◌, some, ◌++◌, Bytes, arith, length, drop, ◌≢◌,
}
use tpe2026c1_socks.Prelude.Memory.{window, move_down, length-move_down}
use tpe2026c1_socks.Buffer.{
  Buffer, buffer_reset, buffer_init, buffer_compact, buffer_read_ptr, buffer_write_ptr,
}

pub record IsValid (b : Buffer) : Type 0 where
  pub ordered : b.read ≤ b.write
  pub within : b.write ≤ b.limit
  pub stored : b.limit ≤ length b.storage
  pub addressable : b.limit < 2 ^ 64

pub buffer_reset-IsValid : {b : Buffer} → IsValid b → IsValid (buffer_reset b)
unfolding buffer_reset
buffer_reset-IsValid v = ground arith

pub buffer_init-IsValid :
    (n : ℕ) (storage : Bytes) → n ≤ length storage → n < 2 ^ 64 → IsValid (buffer_init n storage)
unfolding buffer_init
buffer_init-IsValid n storage h k = ground arith

-- The bytes that a valid buffer moves to the front.
abbrev pub compacted : Buffer → Buffer
compacted b = record b {
  storage = window b.storage b.read (b.write - b.read) ++ drop (b.write - b.read) b.storage;
  read = 0;
  write = b.write - b.read;
}

pub move_down_in :
    (xs : Bytes) (i n : ℕ)
    → i + n ≤ length xs
    → move_down xs i n ≡ some (window xs i n ++ drop n xs)
unfolding move_down
move_down_in xs i n h = ground arith

module _ {b : Buffer} (v : IsValid b) where
  pub read_count : buffer_read_ptr b ≡ some (b.read, b.write - b.read)
  unfolding buffer_read_ptr
  read_count = ground arith

  pub write_count : buffer_write_ptr b ≡ some (b.write, b.limit - b.write)
  unfolding buffer_write_ptr
  write_count = ground arith

  -- Where the read pointer is not at the front, the unread bytes are moved there.
  pub compact_moved : b.read ≢ 0 → b.read ≢ b.write → buffer_compact b ≡ some (compacted b)
  unfolding buffer_compact
  compact_moved h k = ground (arith, move_down_in b.storage b.read (b.write - b.read))

  pub compact_front : b.read ≡ 0 → buffer_compact b ≡ some b
  unfolding buffer_compact
  compact_front h = ground arith

  pub compact_empty :
      b.read ≢ 0 → b.read ≡ b.write → buffer_compact b ≡ some (record b { read = 0; write = 0 })
  unfolding buffer_compact
  compact_empty h k = ground arith

  pub compacted-IsValid : IsValid (compacted b)
  compacted-IsValid = omega (arith, length-move_down b.storage b.read (b.write - b.read))
