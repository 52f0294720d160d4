-- ===== src/Buffer/Queue.antt =====
-- A valid buffer is a queue of bytes: what each operation does to the bytes that wait to be read.
-- Every lemma gives the result, so none of these calls aborts.
use tpe2026c1_socks.Buffer.{
  Buffer, buffer_compact, buffer_reset, buffer_read_adv, buffer_can_read, buffer_read, buffer_write,
  buffer_write_adv,
}
use tpe2026c1_socks.Buffer.Bounds.{
  IsValid, compacted, compact_empty, compact_front, compact_moved, compacted-IsValid,
}
use tpe2026c1_socks.Prelude.{
  Bytes, [], arith, length, some, ◌-◌, ◌≡◌, ap, drop, pos, refl, sym, ℕ, ◌+◌, ◌∙◌, ◌≤◌, ℕ_discrete,
  true, ◌++◌, ◌<◌, ◌↔◌, ◌∷◌, ◌≢◌, ltb→lt, lt→ltb, dec_lt, false,
}
use tpe2026c1_socks.Prelude.Memory.{
  length-window, window, drop-window, window-move_down, length-splice, splice, store_in,
  window-splice, get_elem?-window,
}
use tpe2026c1_socks.Metrics.History.{moved}

-- The bytes that were written and not yet read, oldest first.
abbrev pub contents : Buffer → Bytes
contents b = window b.storage b.read (b.write - b.read)

-- The buffer `c` comes from `b`, and holds the bytes `q`.
pub record Holds (b c : Buffer) (q : Bytes) : Type 0 where
  pub valid : IsValid c
  pub holds : contents c ≡ q
  pub limit : c.limit ≡ b.limit

pub length-contents : {b : Buffer} → IsValid b → length (contents b) ≡ b.write - b.read
length-contents {b} v = length-window b.storage b.read (b.write - b.read) (omega arith)

pub buffer_reset_lem : {b : Buffer} → IsValid b → Holds b (buffer_reset b) []
unfolding buffer_reset
buffer_reset_lem v = record { valid = ground arith; holds = refl; limit = refl }

-- A valid buffer with nothing unread, or with its bytes at the front, is compact.
pub contents_empty : (b : Buffer) → b.read ≡ b.write → contents b ≡ []
contents_empty b e = let none_left : b.write - b.read ≡ 0 = omega arith in rw none_left

front-Holds : {b : Buffer} → IsValid b → Holds b b (contents b)
front-Holds v = record { valid = v; holds = refl; limit = refl }

compacted-Holds : {b : Buffer} → IsValid b → Holds b (compacted b) (contents b)
compacted-Holds {b} v = record {
  valid = compacted-IsValid v;
  holds =
      let e : b.write - b.read - 0 ≡ b.write - b.read = omega arith in
      rw e (window-move_down b.storage b.read (b.write - b.read) (omega arith));
  limit = refl;
}

-- `buffer_compact` on a valid buffer does not abort: it moves the unread bytes to the front of the
-- storage and keeps them, the limit and the validity.
pub buffer_compact_lem :
    {b : Buffer}
    → IsValid b
    → (c : Buffer) × (buffer_compact b ≡ some c)
      × Holds b c (contents b)
      × (c.read ≡ 0)
      × (c.write ≡ b.write - b.read)
buffer_compact_lem {b} v = elim (ℕ_discrete b.read 0) [
  | yes front ↦ (b, compact_front v front, front-Holds v, front, omega arith)
  | no moved ↦ elim (ℕ_discrete b.read b.write) [
    | yes e ↦ (
      record b { read = 0; write = 0 },
      compact_empty v moved e,
      record { valid = omega arith; holds = sym (contents_empty b e); limit = refl },
      refl,
      omega arith,
    )
    | no ne ↦ (compacted b, compact_moved v moved ne, compacted-Holds v, refl, refl)
  ]
]

-- `buffer_read_adv` over at most the unread bytes of a valid buffer does not abort and takes them
-- from the queue, also where it compacts; the buffer stays valid.
pub buffer_read_adv_lem :
    {b : Buffer} (n : ℕ)
    → IsValid b
    → n ≤ b.write - b.read
    → (c : Buffer) × (buffer_read_adv b (pos n) ≡ some c) × Holds b c (drop n (contents b))
unfolding buffer_read_adv
buffer_read_adv_lem {b} n v h =
    let moved : Buffer = record b { read = b.read + n } in
    let left : contents moved ≡ drop n (contents b) =
      ap (λ k. window b.storage (b.read + n) k) (omega arith)
      ∙ sym (drop-window b.storage b.read (b.write - b.read) n) in
    let ok : IsValid moved = omega arith in
    elim (ℕ_discrete (b.read + n) b.write) [
      | yes e ↦
          let (c, done, k, _, _) = buffer_compact_lem ok in
          (
            c,
            ground (arith, done),
            record { valid = k.valid; holds = k.holds ∙ left; limit = k.limit },
          )
      | no ne ↦ (moved, ground arith, record { valid = ok; holds = left; limit = refl })
    ]

-- `buffer_read` on a valid buffer where a byte waits does not abort, returns the oldest byte and
-- takes it from the queue.
pub buffer_read_cons :
    {b : Buffer} {x : ℕ} {q : Bytes}
    → IsValid b
    → contents b ≡ x ∷ q
    → (c : Buffer) × (buffer_read b ≡ some (x, c)) × Holds b c q
unfolding buffer_read
buffer_read_cons {b} {x} {q} v e =
    let waits : 1 ≤ b.write - b.read = omega (arith, ap length e, length-contents v) in
    let (c, done, k) = buffer_read_adv_lem 1 v waits in
    (
      c,
      ground (arith, done, waits, get_elem?-window b.storage b.read (b.write - b.read) e),
      record { valid = k.valid; holds = k.holds ∙ ap (drop 1) e; limit = k.limit },
    )

-- Where no byte waits, it returns 0.
pub buffer_read_nil : {b : Buffer} → IsValid b → contents b ≡ [] → buffer_read b ≡ some (0, b)
unfolding buffer_read
buffer_read_nil {b} v e = ground (arith, ap length e, length-contents v)

-- On a valid buffer `buffer_can_read` tells whether the queue has a byte.
pub buffer_can_read_iff : {b : Buffer} → IsValid b → (buffer_can_read b ≡ true) ↔ (contents b ≢ [])
unfolding buffer_can_read
buffer_can_read_iff {b} v = (
  λ t e. absurd (omega (arith, ltb→lt _ _ t, ap length e, length-contents v)),
  λ ne. elim (dec_lt b.read b.write) [
    | yes h ↦ lt→ltb _ _ h
    | no h ↦ absurd (ne (contents_empty b (omega arith)))
  ],
)

-- `buffer_write_adv` on a valid buffer, over bytes `bs` that were stored behind its write pointer
-- and fit below its limit, does not abort and appends them to the queue.
pub write_adv_lem :
    {b : Buffer} (bs : Bytes)
    → IsValid b
    → b.write + length bs ≤ b.limit
    → (c : Buffer) × (buffer_write_adv
          (record b { storage = splice b.storage b.write bs })
          (pos (length bs))
        ≡ some c)
      × Holds b c (contents b ++ bs)
      × (c.write ≡ b.write + length bs)
unfolding buffer_write_adv
write_adv_lem {b} bs v h = (
  record b { storage = splice b.storage b.write bs; write = b.write + length bs },
  ground arith,
  record {
    valid = omega (arith, length-splice b.storage b.write bs);
    holds =
        window-splice b.storage b.write bs b.read (b.write - b.read) (b.write + length bs - b.read)
          (omega arith) (omega arith) (omega arith);
    limit = refl;
  },
  refl,
)

-- `buffer_write` on a valid buffer with room does not abort and appends its byte to the queue.
pub buffer_write_lem :
    {b : Buffer} (x : ℕ)
    → IsValid b
    → b.write < b.limit
    → (c : Buffer) × (buffer_write b x ≡ some c)
      × Holds b c (contents b ++ x ∷ [])
      × (c.write ≡ b.write + 1)
unfolding buffer_write
buffer_write_lem {b} x v h =
    let (c, e, k, w) = write_adv_lem (x ∷ []) v (omega arith) in
    (c, ground (arith, e, store_in b.storage b.write (x ∷ [])), k, w)

-- A full buffer drops the byte.
pub buffer_write_full :
    {b : Buffer} (x : ℕ) → IsValid b → b.write ≡ b.limit → buffer_write b x ≡ some b
unfolding buffer_write
buffer_write_full x v e = ground arith

pub can_read_cons :
    {b : Buffer} {x : ℕ} {q : Bytes} → IsValid b → contents b ≡ x ∷ q → buffer_can_read b ≡ true
unfolding buffer_can_read
can_read_cons {b} v e = lt→ltb _ _ (omega (arith, ap length e, length-contents v))

pub can_read_nil : {b : Buffer} → IsValid b → contents b ≡ [] → buffer_can_read b ≡ false
unfolding buffer_can_read
can_read_nil {b} v e = ground (arith, ap length e, length-contents v)

pub Holds-trans : {b c d : Buffer} {q r : Bytes} → Holds b c q → Holds c d r → Holds b d r
Holds-trans h k = record { valid = k.valid; holds = k.holds; limit = k.limit ∙ h.limit }

pub Holds-refl : {b : Buffer} {q : Bytes} → IsValid b → contents b ≡ q → Holds b b q
Holds-refl v e = record { valid = v; holds = e; limit = refl }
