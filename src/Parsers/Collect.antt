-- ===== src/Parsers/Collect.antt =====
-- The states of a parser that collect a counted run of bytes, one byte a call: into an array, into
-- flags or into a number.
use tpe2026c1_socks.Parsers.Run.{resume, run}
use tpe2026c1_socks.Prelude.{
  Bool, Bytes, [], drop, false, if◌then◌else◌, length, suc, take, ℕ, ◌+◌, ◌-◌, ◌<◌, ◌==◌, ◌∷◌, ◌≡◌,
  ◌≤◌, ==_iff, Bool-cases, arith, inl, inr,
}

module _ {P A : Type 0} (feed : P → ℕ → P) (finished : P → Bool) (put : A → ℕ → ℕ → A)
    (at : A → ℕ → P) (after : A → P) (n : ℕ) where
  -- The bytes put into `a` one by one, the first at index `i`.
  abbrev pub put_all : A → ℕ → Bytes → A
  put_all a i [] = a
  put_all a i (x ∷ xs) = put_all (put a i x) (suc i) xs

  -- `at a i` holds `a` with `i` of `n` bytes read.
  abbrev pub Collects : Type 0
  Collects =
      (a : A) (i x : ℕ)
      → i < n
      → feed (at a i) x ≡ (if suc i == n then after (put a i x) else at (put a i x) (suc i))

  module _ (step : Collects) (open' : (a : A) (i : ℕ) → finished (at a i) ≡ false) where
    -- With enough bytes at hand the run is read whole, and the parser goes on behind it.
    pub run-collect :
        (bs : Bytes) (a : A) (i : ℕ)
        → i < n
        → n - i ≤ length bs
        → run feed finished (at a i) bs
          ≡ resume feed finished (after (put_all a i (take (n - i) bs))) (drop (n - i) bs)
    run-collect [] a i h k = absurd (omega arith)
    run-collect (x ∷ bs) a i h k =
        let e : n - i ≡ suc (n - suc i) = omega arith in
        elim (Bool-cases (suc i == n)) [
          | inl last ↦
              let l : n - suc i ≡ 0 = omega (arith, (==_iff (suc i) n).0 last) in
              rw (e, l, step a i x h, last)
          | inr more' ↦
              let f : feed (at a i) x ≡ at (put a i x) (suc i) = rw (step a i x h, more') in
              let lt : suc i < n = ground arith in
              rw (e, f, open' (put a i x) (suc i))
                (run-collect bs (put a i x) (suc i) lt (omega arith))
        ]

    -- With fewer the parser has read all of them and waits.
    pub run-collect_short :
        (bs : Bytes) (a : A) (i : ℕ)
        → i < n
        → length bs < n - i
        → run feed finished (at a i) bs ≡ (at (put_all a i bs) (i + length bs), [], false)
    run-collect_short [] a i h k = let e : i + 0 ≡ i = omega arith in rw e
    run-collect_short (x ∷ bs) a i h k =
        let lt : suc i < n = omega arith in
        let ne : (suc i == n) ≡ false = ground arith in
        let f : feed (at a i) x ≡ at (put a i x) (suc i) = rw (step a i x h, ne) in
        let e : i + suc (length bs) ≡ suc i + length bs = omega arith in
        rw (e, f, open' (put a i x) (suc i))
          (run-collect_short bs (put a i x) (suc i) lt (omega arith))
