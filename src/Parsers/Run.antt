-- ===== src/Parsers/Run.antt =====
-- The `*_parser_consume` functions of src/socks5_parsers.c, which are one loop over three parsers,
-- and what the loop means on the bytes that the buffer holds.
use tpe2026c1_socks.Buffer.Queue.{
  contents, Holds, buffer_read_cons, Holds-refl, Holds-trans, can_read_cons, can_read_nil,
  length-contents,
}
use tpe2026c1_socks.Buffer.{Buffer, buffer_can_read, buffer_read}
use tpe2026c1_socks.Buffer.Bounds.{IsValid}
use tpe2026c1_socks.Prelude.{
  Bool, Bool-cases, Bytes, Option, [], false, if◌then◌else◌, inl, inr, length, none, refl, some,
  suc, true, zero, ℕ, ◌++◌, ◌<◌, ◌>>=◌, ◌∷◌, ◌≡◌, arith,
}

-- What a parse makes of the bytes received so far: it needs more, it refuses them, or it is
-- complete with a value; `bad` and `complete` hold the bytes behind the last one that was read.
pub data Outcome {ℓ} (A : Type ℓ) : Type ℓ where
  more : Outcome A
  bad : Bytes → Outcome A
  complete : A → Bytes → Outcome A

-- `feed` moves the parser by one byte, `finished` tests its state for DONE or ERROR, and `failed`
-- for ERROR.
module _ {P : Type 0} (feed : P → ℕ → P) (finished : P → Bool) where
  -- The parser, the bytes left and whether it finished.
  abbrev pub run : P → Bytes → P × Bytes × Bool
  run p [] = (p, [], false)
  run p (b ∷ bs) = if finished (feed p b) then (feed p b, bs, true) else run (feed p b) bs

  -- Where the parser may have finished already.
  abbrev pub resume : P → Bytes → P × Bytes × Bool
  resume p bs = if finished p then (p, bs, true) else run p bs

  pub run-append :
      (p : P) (xs ys : Bytes)
      → run p (xs ++ ys)
        ≡ (if (run p xs).2 then ((run p xs).0, (run p xs).1 ++ ys, true) else run (run p xs).0 ys)
  run-append p [] ys = refl
  run-append p (x ∷ xs) ys = elim (Bool-cases (finished (feed p x))) [
    | inl e ↦ rw e
    | inr e ↦ rw e (run-append (feed p x) xs ys)
  ]

module _ {P : Type 0} (feed : P → ℕ → P) (finished failed : P → Bool) where
  -- The loop, with fuel; `none` is an abort or the end of the fuel. The results are the returned
  -- value, the parser, the buffer and `*error`.
  unfoldable pub consume_loop : ℕ → P → Buffer → Bool → Option (Bool × P × Buffer × Bool)
  consume_loop zero p buf error = none
  consume_loop (suc fuel) p buf error =
      if buffer_can_read buf
      then (do
        (b, buf') ← buffer_read buf
        let p' = feed p b
        let rest = consume_loop fuel p' buf' error
        if finished p' then some (true, p', buf', failed p') else rest)
      else some (false, p, buf, error)

  -- One round for each byte of the storage, and one for the last test.
  unfoldable pub consume : P → Buffer → Bool → Option (Bool × P × Buffer × Bool)
  unfolding consume_loop
  consume p buf error = consume_loop (suc (length buf.storage)) p buf error

  consume_loop_lem :
      (q : Bytes) (fuel : ℕ) (p : P) {b : Buffer} (error : Bool)
      → IsValid b
      → contents b ≡ q
      → length q < fuel
      → (c : Buffer) × (consume_loop fuel p b error
          ≡ some (
            (run feed finished p q).2,
            (run feed finished p q).0,
            c,
            (if (run feed finished p q).2 then failed (run feed finished p q).0 else error),
          ))
        × Holds b c (run feed finished p q).1
  unfolding consume_loop
  consume_loop_lem q zero p error v e h = elim h [ ]
  consume_loop_lem [] (suc fuel) p {b} error v e h = (b, rw (can_read_nil v e), Holds-refl v e)
  consume_loop_lem (x ∷ q) (suc fuel) p {b} error v e h =
      let (c, read_ok, k) = buffer_read_cons v e in
      let (d, loop, l) = consume_loop_lem q fuel (feed p x) error k.valid k.holds (omega arith) in
      elim (Bool-cases (finished (feed p x))) [
        | inl t ↦ (c, rw (can_read_cons v e, read_ok, t), rw t k)
        | inr t ↦ (d, rw (can_read_cons v e, read_ok, t) loop, rw t (Holds-trans k l))
      ]

  -- What a `consume` call does on a valid buffer, whatever the parser: it does not abort, it feeds
  -- the waiting bytes up to the one that finishes the parser, and it leaves the others waiting.
  pub consume_lem :
      (p : P) {b : Buffer} (error : Bool)
      → IsValid b
      → (c : Buffer) × (consume p b error
          ≡ some (
            (run feed finished p (contents b)).2,
            (run feed finished p (contents b)).0,
            c,
            (if (run feed finished p (contents b)).2
                then failed (run feed finished p (contents b)).0
                else error),
          ))
        × Holds b c (run feed finished p (contents b)).1
  unfolding consume
  consume_lem p {b} error v =
      consume_loop_lem (contents b) (suc (length b.storage)) p error v refl
        (omega (arith, length-contents v))
