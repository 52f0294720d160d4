-- ===== src/Users.antt =====
-- src/users.c and src/users.h: the table of the proxy's users. A `char` array is the C string that
-- it holds, and a `const char *` argument is that string or `NULL`, which is `none`. The table `db`
-- is a list of 64 entries, passed in and returned.
use mathlib.Core.Option
pub mod Table
pub mod Map
pub mod Keep
pub mod Operations
pub mod Names
mod Tests
use tpe2026c1_socks.Prelude.{
  Bool, Bytes, List, Option, [], false, if◌then◌else◌, leb, length, ltb, none, not, replicate, some,
  suc, true, zero, ℕ, ◌&&◌, ◌+◌, ◌==◌, ◌||◌, ◌∷◌,
}
use tpe2026c1_socks.Prelude.Text.{str_eq}

abbrev pub users_max : ℕ
users_max = 64

abbrev pub users_max_name : ℕ
users_max_name = 255

abbrev pub users_max_pass : ℕ
users_max_pass = 255

-- `enum users_result`. `USERS_EXISTS`, which no function of users.c
-- returns, is `already_exists`.
pub data UsersResult : Type 0 where
  users_ok already_exists users_not_found users_full users_invalid : UsersResult

pub record User : Type 0 where
  pub used : Bool
  pub name : Bytes
  pub pass : Bytes

-- An entry cleared by `memset`.
abbrev pub cleared : User
cleared = record { used = false; name = []; pass = [] }

unfoldable pub users_init : List User
users_init = replicate users_max cleared

abbrev pub modify : List User → ℕ → (User → User) → List User
modify [] i f = []
modify (u ∷ us) zero f = f u ∷ us
modify (u ∷ us) (suc i) f = u ∷ modify us i f

-- The loop of `find` from index `i` on; -1 is `none`.
unfoldable pub find_from : ℕ → List User → Bytes → Option ℕ
find_from i [] name = none
find_from i (u ∷ us) name =
    if u.used && str_eq u.name name then some i else find_from (suc i) us name

unfoldable pub find : List User → Bytes → Option ℕ
unfolding find_from
find db name = find_from 0 db name

unfoldable pub valid_field : Option Bytes → ℕ → Bool
valid_field none max = false
valid_field (some s) max = ltb 0 (length s) && leb (length s) max

-- The loop that fills the first free entry; `none` where the table is full.
unfoldable pub fill_free : List User → Bytes → Bytes → Option (List User)
fill_free [] name pass = none
fill_free (u ∷ us) name pass =
    if not u.used
    then some (record { used = true; name = name; pass = pass } ∷ us)
    else Option.map (λ t. u ∷ t) (fill_free us name pass)

-- `users_add` behind its check of the two fields.
unfoldable pub add_checked : List User → Bytes → Bytes → UsersResult × List User
unfolding find fill_free
add_checked db name pass = elim (find db name) [
  | some i ↦ (users_ok, modify db i (λ u. record u { pass = pass }))
  | none ↦ elim (fill_free db name pass) [ some db' ↦ (users_ok, db') | none ↦ (users_full, db) ]
]

-- The string behind a pointer that was checked.
abbrev pub text : Option Bytes → Bytes
text none = []
text (some s) = s

unfoldable pub users_add : List User → Option Bytes → Option Bytes → UsersResult × List User
unfolding add_checked valid_field
users_add db name pass =
    if not (valid_field name users_max_name) || not (valid_field pass users_max_pass)
    then (users_invalid, db)
    else add_checked db (text name) (text pass)

unfoldable pub users_del : List User → Option Bytes → UsersResult × List User
unfolding find
users_del db none = (users_invalid, db)
users_del db (some name) = elim (find db name) [
  | none ↦ (users_not_found, db)
  | some i ↦ (users_ok, modify db i (λ _. cleared))
]

-- The password at index `i`, for the second `strcmp` of `users_check`.
abbrev pub pass_at : List User → ℕ → Bytes
pass_at [] i = []
pass_at (u ∷ us) zero = u.pass
pass_at (u ∷ us) (suc i) = pass_at us i

unfoldable pub users_check : List User → Option Bytes → Option Bytes → Bool
unfolding find
users_check db (some name) (some pass) = elim (find db name) [
  | none ↦ false
  | some i ↦ str_eq (pass_at db i) pass
]
users_check db _ _ = false

unfoldable pub users_exists : List User → Option Bytes → Bool
unfolding find
users_exists db none = false
users_exists db (some name) = elim (find db name) [ none ↦ false | some i ↦ true ]

unfoldable pub users_count : List User → ℕ
users_count [] = 0
users_count (u ∷ us) = (if u.used then 1 else 0) + users_count us

-- The loop of `users_name_at`, with `c` used entries seen.
unfoldable pub name_at_from : ℕ → List User → ℕ → Option Bytes
name_at_from c [] i = none
name_at_from c (u ∷ us) i =
    if u.used && c == i then some u.name else name_at_from (if u.used then c + 1 else c) us i

unfoldable pub users_name_at : List User → ℕ → Option Bytes
unfolding name_at_from
users_name_at db i = name_at_from 0 db i
