-- ===== src/Client/Receive.antt =====
-- The receiving loop of src/client.c on a stream that the kernel cuts as it likes.
use tpe2026c1_socks.Client.Transport.{Call, ready, interrupted, broken, got, recv_exact}
use mathlib.Core.Path.{ap₂}
use tpe2026c1_socks.Prelude.{
  Bytes, List, [], ap, arith, drop, drop-nil, false, length, length-drop, length-take, refl, suc,
  take, zero, ℕ, ◌++◌, ◌+◌, ◌-◌, ◌<◌, ◌==◌, ◌∷◌, ◌≡◌, ◌≤◌, min, ◌∙◌,
}

-- Calls without an error, of which at least `n` find one byte or more.
abbrev pub Enough : ℕ → List Call → Type 0
Enough n [] = n ≡ 0
Enough n (interrupted ∷ cs) = Enough n cs
Enough n (broken ∷ cs) = ⊥
Enough n (ready k ∷ cs) = (0 < k) × Enough (n - 1) cs

pub Enough-le : (cs : List Call) (m n : ℕ) → m ≤ n → Enough n cs → Enough m cs
Enough-le [] m n h e = omega (arith, h, e)
Enough-le (interrupted ∷ cs) m n h e = Enough-le cs m n h e
Enough-le (broken ∷ cs) m n h e = e
Enough-le (ready k ∷ cs) m n h e = (e.0, Enough-le cs (m - 1) (n - 1) (omega arith) e.1)

take_join : (m n : ℕ) (s : Bytes) → m ≤ n → take m s ++ take (n - m) (drop m s) ≡ take n s
take_join zero n s h = let e : n - 0 ≡ n = omega arith in rw e refl
take_join (suc m) zero s h = absurd (omega (arith, h))
take_join (suc m) (suc n) [] h =
    let e : suc n - suc m ≡ n - m = omega arith in rw e (take_nil (n - m))
  where
    take_nil : (k : ℕ) → take {A = ℕ} k [] ≡ []
    take_nil zero = refl
    take_nil (suc k) = refl
take_join (suc m) (suc n) (x ∷ s) h =
    let e : suc n - suc m ≡ n - m = omega arith in
    rw e (ap (λ t. x ∷ t) (take_join m n s (omega arith)))

drop_join : (m n : ℕ) (s : Bytes) → m ≤ n → drop (n - m) (drop m s) ≡ drop n s
drop_join zero n s h = let e : n - 0 ≡ n = omega arith in rw e refl
drop_join (suc m) zero s h = absurd (omega (arith, h))
drop_join (suc m) (suc n) [] h = drop-nil (suc n - suc m)
drop_join (suc m) (suc n) (x ∷ s) h =
    let e : suc n - suc m ≡ n - m = omega arith in rw e (drop_join m n s (omega arith))

-- One `recv` that finds `k` bytes, and the rest.
recv_step :
    (cs cs' : List Call) (n k m : ℕ) (s a b : Bytes)
    → m ≡ min k (suc n)
    → 0 < m
    → length (take m s) ≡ m
    → recv_exact (suc n - m) (drop m s) cs ≡ got a b cs'
    → recv_exact (suc n) s (ready k ∷ cs) ≡ got (take m s ++ a) b cs'
unfolding recv_exact
recv_step cs cs' n k m s a b e some_bytes len q =
    let nz : (suc n == 0) ≡ false = ground arith in
    let nz' : (m == 0) ≡ false = ground arith in rw (nz, ← e, len, nz', q) refl

-- `recv_exact` of `n` bytes, all of which the server sends, with enough calls, returns exactly the
-- next `n` bytes of the stream however they are cut, and leaves the others.
pub recv_exact_lem :
    (cs : List Call) (n e : ℕ) (s : Bytes)
    → n ≤ length s
    → Enough (n + e) cs
    → (cs' : List Call) × (recv_exact n s cs ≡ got (take n s) (drop n s) cs') × Enough e cs'
unfolding recv_exact
recv_exact_lem [] zero e s l h = ([], refl, omega (arith, h))
recv_exact_lem [] (suc n) e s l h = absurd (omega (arith, h))
recv_exact_lem (c ∷ cs) zero e s l h =
    (c ∷ cs, refl, Enough-le (c ∷ cs) e (zero + e) (omega arith) h)
recv_exact_lem (interrupted ∷ cs) (suc n) e s l h =
    let nz : (suc n == 0) ≡ false = ground arith in
    let (cs', q, k) = recv_exact_lem cs (suc n) e s l h in (cs', rw nz q, k)
recv_exact_lem (broken ∷ cs) (suc n) e s l h = absurd h
recv_exact_lem (ready k ∷ cs) (suc n) e s l h =
    let m : ℕ = min k (suc n) in
    let small : m ≤ suc n = omega arith in
    let len : length (take m s) ≡ m = omega (arith, length-take m s) in
    let (cs', q, r) =
      recv_exact_lem cs (suc n - m) e (drop m s) (omega (arith, length-drop m s))
        (Enough-le cs (suc n - m + e) (suc n + e - 1) (omega (arith, h.0)) h.1) in
    (
      cs',
      recv_step cs cs' n k m s _ _ refl (omega (arith, h.0)) len q
          ∙ ap₂ (λ a b. got a b cs') (take_join m (suc n) s small) (drop_join m (suc n) s small),
      r,
    )
