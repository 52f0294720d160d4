-- ===== src/Users/Table.antt =====
-- The invariant of the table: 64 entries, fields that fit their arrays with a terminator, and no
-- name used twice.
use tpe2026c1_socks.Prelude.{All, Bytes, List, [], length, true, ◌<◌, ◌∷◌, ◌≡◌, ◌≢◌, ◌≤◌}
use tpe2026c1_socks.Users.{User, users_max}

-- What `strcpy` may write into an array of 256 bytes, and `users_add` lets through.
abbrev pub Fits : Bytes → Type 0
Fits s = (0 < length s) × (length s ≤ 255)

abbrev pub EntryFits : User → Type 0
EntryFits u = u.used ≡ true → Fits u.name × Fits u.pass

-- No entry in use has this name.
abbrev pub Fresh : Bytes → List User → Type 0
Fresh name us = All (λ u. u.used ≡ true → u.name ≢ name) us

abbrev pub Unique : List User → Type 0
Unique [] = Unit
Unique (u ∷ us) = (u.used ≡ true → Fresh u.name us) × Unique us

pub record IsValid (db : List User) : Type 0 where
  pub size : length db ≡ users_max
  pub fits : All EntryFits db
  pub unique : Unique db
