-- ===== src/Prelude/Memory.antt =====
-- Byte arrays of the C program: a list of fixed length. A store or a copy that leaves the array is
-- a fault, `none`; so is a read out of range.
use Prim.Native.Nat.{ℕ, zero, suc, ◌+◌, ◌≤◌, ◌-◌}
use mathlib.Core.Path.{◌≡◌, refl, ap, ◌∙◌, sym}
use mathlib.Core.List.{List, [], ◌∷◌, ◌++◌}
use mathlib.Core.Option.{Option, none, some}
use native.Mathlib.Omega.{arith}
use tpe2026c1_socks.Prelude.Tests.{leb, if◌then◌else◌}
use tpe2026c1_socks.Prelude.Lists.{
  length, get_elem?, take, drop, length-append, length-take, length-drop, take-append, drop-nil,
  drop-take,
}
use tpe2026c1_socks.Prelude.{drop-append, ◌<◌}

-- The bytes `bs` written over `xs` from index `i` on.
abbrev pub splice : List ℕ → ℕ → List ℕ → List ℕ
splice [] i bs = []
splice (x ∷ xs) zero [] = x ∷ xs
splice (x ∷ xs) zero (b ∷ bs) = b ∷ splice xs zero bs
splice (x ∷ xs) (suc i) bs = x ∷ splice xs i bs

-- `memcpy(xs + i, bs, n)`, and a single store where `bs` is one byte.
unfoldable pub store : List ℕ → ℕ → List ℕ → Option (List ℕ)
store xs i bs = if leb (i + length bs) (length xs) then some (splice xs i bs) else none

-- `n` bytes from index `i` on.
abbrev pub window : List ℕ → ℕ → ℕ → List ℕ
window xs i n = take n (drop i xs)

-- `memmove(xs, xs + src, n)`.
unfoldable pub move_down : List ℕ → ℕ → ℕ → Option (List ℕ)
move_down xs src n = if leb (src + n) (length xs) then some (window xs src n ++ drop n xs) else none

pub store_in :
    (xs : List ℕ) (i : ℕ) (bs : List ℕ)
    → i + length bs ≤ length xs
    → store xs i bs ≡ some (splice xs i bs)
unfolding store
store_in xs i bs h = ground arith

pub length-splice : (xs : List ℕ) (i : ℕ) (bs : List ℕ) → length (splice xs i bs) ≡ length xs
length-splice [] i bs = refl
length-splice (x ∷ xs) zero [] = refl
length-splice (x ∷ xs) zero (b ∷ bs) = ap suc (length-splice xs zero bs)
length-splice (x ∷ xs) (suc i) bs = ap suc (length-splice xs i bs)

pub length-window : (xs : List ℕ) (i n : ℕ) → i + n ≤ length xs → length (window xs i n) ≡ n
length-window xs i n h = omega (arith, length-take n (drop i xs), length-drop i xs)

-- What stands before the written range is kept, and the range ends in what was written.
pub window-splice :
    (xs : List ℕ) (i : ℕ) (bs : List ℕ) (r k m : ℕ)
    → i ≡ r + k
    → m ≡ k + length bs
    → i + length bs ≤ length xs
    → window (splice xs i bs) r m ≡ window xs r k ++ bs
window-splice [] i [] (suc r) k m e f h = absurd (omega arith)
window-splice [] i (b ∷ bs) (suc r) k m e f h = absurd (omega arith)
window-splice (x ∷ xs) zero bs (suc r) k m e f h = absurd (omega arith)
window-splice (x ∷ xs) (suc i) bs (suc r) k m e f h =
    window-splice xs i bs r k m (omega arith) f (omega arith)
window-splice [] i [] zero zero zero e f h = refl
window-splice [] i [] zero zero (suc m) e f h = absurd (omega arith)
window-splice [] i (b ∷ bs) zero zero m e f h = absurd (omega arith)
window-splice [] i bs zero (suc k) m e f h = absurd (omega arith)
window-splice (x ∷ xs) zero bs zero (suc k) m e f h = absurd (omega arith)
window-splice (x ∷ xs) (suc i) bs zero zero m e f h = absurd (omega arith)
window-splice (x ∷ xs) (suc i) bs zero (suc k) zero e f h = absurd (omega arith)
window-splice (x ∷ xs) (suc i) bs zero (suc k) (suc m) e f h =
    ap (◌∷◌ x) (window-splice xs i bs zero k m (omega arith) (omega arith) (omega arith))
window-splice (x ∷ xs) zero [] zero zero zero e f h = refl
window-splice (x ∷ xs) zero [] zero zero (suc m) e f h = absurd (omega arith)
window-splice (x ∷ xs) zero (b ∷ bs) zero zero zero e f h = absurd (omega arith)
window-splice (x ∷ xs) zero (b ∷ bs) zero zero (suc m) e f h =
    ap (◌∷◌ b) (window-splice xs zero bs zero zero m (omega arith) (omega arith) (omega arith))

-- A window that is not empty begins with the byte at its index.
pub window-suc :
    (xs : List ℕ) (i n : ℕ) {x : ℕ}
    → get_elem? xs i ≡ some x
    → window xs i (suc n) ≡ x ∷ window xs (suc i) n
window-suc [] i n e = cc
window-suc (y ∷ ys) zero n e = ground arith
window-suc (y ∷ ys) (suc i) n e = window-suc ys i n e

-- Moving a window to the front of the array keeps its bytes.
pub window-move_down :
    (xs : List ℕ) (i n : ℕ)
    → i + n ≤ length xs
    → window (window xs i n ++ drop n xs) 0 n ≡ window xs i n
window-move_down xs i n h =
    take-append (window xs i n) (drop n xs) n (omega (arith, length-window xs i n h))

pub length-move_down :
    (xs : List ℕ) (i n : ℕ) → i + n ≤ length xs → length (window xs i n ++ drop n xs) ≡ length xs
length-move_down xs i n h =
    omega
      (arith, length-append (window xs i n) (drop n xs), length-window xs i n h, length-drop n xs)

drop-drop : (i j : ℕ) (xs : List ℕ) → drop i (drop j xs) ≡ drop (j + i) xs
drop-drop i zero xs = ap (λ k. drop k xs) (omega arith)
drop-drop i (suc j) [] = drop-nil i ∙ sym (drop-nil (suc j + i))
drop-drop i (suc j) (x ∷ xs) = drop-drop i j xs ∙ ap (λ k. drop k (x ∷ xs)) (shift i j)
  where
    shift : (i j : ℕ) → suc (j + i) ≡ suc j + i
    shift i j = omega arith

-- Dropping from a window moves its start.
pub drop-window : (xs : List ℕ) (i k n : ℕ) → drop n (window xs i k) ≡ window xs (i + n) (k - n)
drop-window xs i k n = drop-take n k (drop i xs) ∙ ap (take (k - n)) (drop-drop n i xs)

-- A window that begins with a byte shows the byte at its index.
pub get_elem?-window :
    (xs : List ℕ) (i n : ℕ) {x : ℕ} {q : List ℕ} → window xs i n ≡ x ∷ q → get_elem? xs i ≡ some x
get_elem?-window [] i zero e = cc
get_elem?-window [] zero (suc n) e = cc
get_elem?-window [] (suc i) (suc n) e = cc
get_elem?-window (y ∷ ys) zero zero e = cc
get_elem?-window (y ∷ ys) zero (suc n) e = cc
get_elem?-window (y ∷ ys) (suc i) n e = get_elem?-window ys i n e

-- Two writes side by side are one.
pub splice-splice :
    (xs : List ℕ) (i x : ℕ) (bs : List ℕ)
    → splice (splice xs i (x ∷ [])) (suc i) bs ≡ splice xs i (x ∷ bs)
splice-splice [] i x bs = refl
splice-splice (y ∷ []) zero x bs = refl
splice-splice (y ∷ z ∷ ys) zero x bs = refl
splice-splice (y ∷ ys) (suc i) x bs = ap (◌∷◌ y) (splice-splice ys i x bs)

-- Writing nothing changes nothing.
pub splice-nil : (xs : List ℕ) (i : ℕ) → splice xs i [] ≡ xs
splice-nil [] i = refl
splice-nil (x ∷ xs) zero = refl
splice-nil (x ∷ xs) (suc i) = ap (◌∷◌ x) (splice-nil xs i)

-- What is written at the front is what stands there.
pub take-splice :
    (xs bs : List ℕ) (n : ℕ) → n ≡ length bs → n ≤ length xs → take n (splice xs 0 bs) ≡ bs
take-splice xs bs n e h = window-splice xs 0 bs 0 0 n refl (omega arith) (omega arith)

-- `xs[i]`, which the program reads only below the length of `xs`.
abbrev pub byte_at : List ℕ → ℕ → ℕ
byte_at [] i = 0
byte_at (x ∷ xs) zero = x
byte_at (x ∷ xs) (suc i) = byte_at xs i

pub byte_at-append :
    (xs : List ℕ) (x : ℕ) (ys : List ℕ) (i : ℕ) → i ≡ length xs → byte_at (xs ++ x ∷ ys) i ≡ x
byte_at-append [] x ys zero e = refl
byte_at-append [] x ys (suc i) e = absurd (omega arith)
byte_at-append (y ∷ xs) x ys zero e = absurd (omega arith)
byte_at-append (y ∷ xs) x ys (suc i) e = byte_at-append xs x ys i (omega arith)

pub window-append :
    (xs ys zs : List ℕ) (i n : ℕ)
    → i ≡ length xs
    → n ≡ length ys
    → window (xs ++ (ys ++ zs)) i n ≡ ys
window-append xs ys zs i n e f = rw (drop-append xs (ys ++ zs) i e) (take-append ys zs n f)

pub byte_at-take : (xs : List ℕ) (k i : ℕ) → i < k → byte_at (take k xs) i ≡ byte_at xs i
byte_at-take xs zero i h = absurd (omega arith)
byte_at-take [] (suc k) i h = refl
byte_at-take (x ∷ xs) (suc k) zero h = refl
byte_at-take (x ∷ xs) (suc k) (suc i) h = byte_at-take xs k i (omega arith)
