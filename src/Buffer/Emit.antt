-- ===== src/Buffer/Emit.antt =====
-- Functions that append a known string to a buffer: what they emit, and how they compose.
use tpe2026c1_socks.Buffer.{Buffer, buffer_write}
use tpe2026c1_socks.Buffer.Bounds.{IsValid}
use tpe2026c1_socks.Buffer.Queue.{Holds, Holds-refl, buffer_write_lem, contents}
use tpe2026c1_socks.Prelude.{
  Bytes, Option, [], ap, append-nil, append_assoc, arith, length, length-append, refl, some, sym, ℕ,
  ◌++◌, ◌+◌, ◌>>=◌, ◌∙◌, ◌∷◌, ◌≡◌, ◌≤◌,
}

-- With room for them behind the write pointer, `m` appends exactly the bytes `bs` to `b`.
abbrev pub Writes : Buffer → Bytes → Option Buffer → Type 0
Writes b bs r =
    (c : Buffer) × (r ≡ some c) × Holds b c (contents b ++ bs) × (c.write ≡ b.write + length bs)

pub record Emits (f : Buffer → Option Buffer) (bs : Bytes) : Type 0 where
  pub emits : (b : Buffer) → IsValid b → b.write + length bs ≤ b.limit → Writes b bs (f b)

pub emit_byte : (x : ℕ) → Emits (λ b. buffer_write b x) (x ∷ [])
emit_byte x = record {
  emits =
      λ b v h. let (c, e, k, w) = buffer_write_lem x v (omega arith) in (c, e, k, omega (arith, w));
}

pub emit_none : Emits some []
emit_none = record {
  emits = λ b v h. (b, refl, Holds-refl v (sym (append-nil (contents b))), omega arith);
}

module _ {f g : Buffer → Option Buffer} {xs ys : Bytes} (ef : Emits f xs) (eg : Emits g ys) where
  seq-Writes :
      (b : Buffer)
      → IsValid b
      → b.write + length (xs ++ ys) ≤ b.limit
      → Writes b (xs ++ ys) (f b >>= g)
  seq-Writes b v h =
      let l : length (xs ++ ys) ≡ length xs + length ys = length-append xs ys in
      let (c, e, k, w) = ef.emits b v (omega (arith, l)) in
      let (d, e', k', w') = eg.emits c k.valid (omega (arith, l, w, k.limit)) in
      (
        d,
        rw (e, ◌>>=◌) e',
        record {
          valid = k'.valid;
          holds = k'.holds ∙ ap (λ t. t ++ ys) k.holds ∙ append_assoc (contents b) xs ys;
          limit = k'.limit ∙ k.limit;
        },
        omega (arith, l, w, w'),
      )

  pub emit_seq : Emits (λ b. f b >>= g) (xs ++ ys)
  emit_seq = record { emits = seq-Writes }

-- `for (j < n) buffer_write(b, s[j])`
unfoldable pub write_all : Bytes → Buffer → Option Buffer
write_all [] b = some b
write_all (x ∷ xs) b = buffer_write b x >>= write_all xs

pub emit_all : (xs : Bytes) → Emits (write_all xs) xs
unfolding write_all
emit_all [] = emit_none
emit_all (x ∷ xs) = emit_seq (emit_byte x) (emit_all xs)
