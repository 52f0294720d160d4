-- ===== src/Buffer/Tests.antt =====
-- The queue of src/buffer.c on a buffer of four bytes.
use tpe2026c1_socks.Buffer.Bounds.{IsValid}
use tpe2026c1_socks.Buffer.{Buffer, buffer_compact, buffer_read_adv}
use tpe2026c1_socks.Buffer.Queue.{Holds, buffer_read_adv_lem}
use tpe2026c1_socks.Prelude.{[], arith, pos, refl, some, ◌∷◌, ◌≡◌}
use tpe2026c1_socks.Prelude.Memory.{move_down}

-- 8 and 9 wait behind a byte that was read.
abbrev two_bytes : Buffer
two_bytes = record { storage = 7 ∷ 8 ∷ 9 ∷ 0 ∷ []; limit = 4; read = 1; write = 3 }

two_bytes-IsValid : IsValid two_bytes
two_bytes-IsValid = omega arith

compacted_bytes :
    buffer_compact two_bytes
    ≡ some (record { storage = 8 ∷ 9 ∷ 9 ∷ 0 ∷ []; limit = 4; read = 0; write = 2 })
unfolding buffer_compact move_down
compacted_bytes = refl

buffer_read_adv_lem_example :
    (c : Buffer) × (buffer_read_adv two_bytes (pos 1) ≡ some c) × Holds two_bytes c (9 ∷ [])
buffer_read_adv_lem_example = buffer_read_adv_lem 1 two_bytes-IsValid (omega arith)
