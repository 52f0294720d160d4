-- ===== src/Prelude/Text.antt =====
-- C strings: an array holds the bytes before its first zero.
use Prim.Native.Nat.{ℕ, zero, suc, ◌≤◌, ◌<◌}
use mathlib.Core.Path.{◌≡◌, refl}
use mathlib.Core.Logic.{◌↔◌, ◌≢◌}
use mathlib.Core.Bool.{Bool, true, false, ◌&&◌}
use mathlib.Core.List.{List, [], ◌∷◌, ◌++◌}
use native.Mathlib.Omega.{arith}
use tpe2026c1_socks.Prelude.Tests.{◌==◌, if◌then◌else◌}
use tpe2026c1_socks.Prelude.Lists.{length}
use tpe2026c1_socks.Prelude.Memory.{splice}
use tpe2026c1_socks.Prelude.{ap, leb, ◌+◌, ◌-◌}

-- The string that an array holds.
abbrev pub c_string : List ℕ → List ℕ
c_string [] = []
c_string (c ∷ cs) = if c == 0 then [] else c ∷ c_string cs

-- `strcmp(a, b) == 0`, on two strings.
unfoldable pub str_eq : List ℕ → List ℕ → Bool
str_eq [] [] = true
str_eq (a ∷ as') (b ∷ bs) = a == b && str_eq as' bs
str_eq _ _ = false

pub str_eq_iff : (a b : List ℕ) → (str_eq a b ≡ true) ↔ (a ≡ b)
unfolding str_eq
str_eq_iff [] [] = ground arith
str_eq_iff [] (b ∷ bs) = ground arith
str_eq_iff (a ∷ as') [] = ground arith
str_eq_iff (a ∷ as') (b ∷ bs) = ground (arith, str_eq_iff as' bs)

-- No zero byte: the array that holds these bytes and a terminator holds this string.
abbrev pub IsText : List ℕ → Type 0
IsText [] = Unit
IsText (c ∷ cs) = (c ≢ 0) × IsText cs

pub c_string-IsText : (xs : List ℕ) → IsText xs → c_string xs ≡ xs
c_string-IsText [] h = refl
c_string-IsText (x ∷ xs) h = ground (arith, c_string-IsText xs h.1)

-- A terminator ends the string at once if no zero stands before it.
pub c_string-append : (xs ys : List ℕ) → IsText xs → c_string (xs ++ 0 ∷ ys) ≡ xs
c_string-append [] ys h = refl
c_string-append (x ∷ xs) ys h = ground (arith, c_string-append xs ys h.1)

-- In every case the terminator bounds the string.
pub c_string-terminated : (xs ys : List ℕ) → c_string (xs ++ 0 ∷ ys) ≡ c_string xs
c_string-terminated [] ys = refl
c_string-terminated (x ∷ xs) ys = ground (arith, c_string-terminated xs ys)

pub length-c_string : (xs : List ℕ) → length (c_string xs) ≤ length xs
length-c_string [] = omega arith
length-c_string (x ∷ xs) = ground (arith, length-c_string xs)

-- A string copied to the front of an array, with a terminator behind it, is what the array holds,
-- up to a zero of its own.
pub c_string-splice :
    (xs bs : List ℕ) (n : ℕ)
    → n ≡ length bs
    → n < length xs
    → c_string (splice (splice xs 0 bs) n (0 ∷ [])) ≡ c_string bs
c_string-splice [] bs n e h = absurd (omega arith)
c_string-splice (x ∷ xs) [] zero e h = refl
c_string-splice (x ∷ xs) [] (suc n) e h = absurd (omega arith)
c_string-splice (x ∷ xs) (b ∷ bs) zero e h = absurd (omega arith)
c_string-splice (x ∷ xs) (b ∷ bs) (suc n) e h =
    ap (λ t. if b == 0 then [] else b ∷ t) (c_string-splice xs bs n (omega arith) (omega arith))

-- `tolower` and `toupper` of the C locale, on ASCII.
abbrev pub tolower : ℕ → ℕ
tolower c = if leb 65 c && leb c 90 then c + 32 else c

abbrev pub toupper : ℕ → ℕ
toupper c = if leb 97 c && leb c 122 then c - 32 else c
