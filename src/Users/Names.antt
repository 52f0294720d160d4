-- ===== src/Users/Names.antt =====
-- `users_count` and `users_name_at`, which list the users one index at a time.
use tpe2026c1_socks.Prelude.{
  All, Bool-cases, Bytes, List, [], ap, arith, false, get_elem?, if◌then◌else◌, inl, inr, length,
  refl, suc, true, ℕ, ◌+◌, ◌-◌, ◌==◌, ◌∙◌, ◌∷◌, ◌≡◌, ◌≤◌, ℕ_discrete,
}
use tpe2026c1_socks.Users.{User, name_at_from, users_count, users_name_at}
use tpe2026c1_socks.Users.Table.{EntryFits, Fits, IsValid}

-- The names in use, in the order of the table.
unfoldable pub names : List User → List Bytes
names [] = []
names (u ∷ us) = if u.used then u.name ∷ names us else names us

pub users_count-names : (db : List User) → users_count db ≡ length (names db)
unfolding users_count names
users_count-names [] = refl
users_count-names (u ∷ us) = ground (arith, users_count-names us)

name_at_from-names :
    (us : List User) (c i : ℕ) → c ≤ i → name_at_from c us i ≡ get_elem? (names us) (i - c)
unfolding name_at_from names
name_at_from-names [] c i h = refl
name_at_from-names (u ∷ us) c i h = elim (Bool-cases u.used) [
  | inr free ↦ rw free (name_at_from-names us c i h)
  | inl busy ↦ elim (ℕ_discrete c i) [
    | yes e ↦
        let z : i - c ≡ 0 = omega arith in let t : (c == i) ≡ true = ground arith in rw (busy, t, z)
    | no ne ↦
        let z : i - c ≡ suc (i - (c + 1)) = omega arith in
        let t : (c == i) ≡ false = ground arith in
        rw (busy, t, z) (name_at_from-names us (c + 1) i (omega arith))
  ]
]

count-le-length : (us : List User) → users_count us ≤ length us
unfolding users_count
count-le-length [] = omega arith
count-le-length (u ∷ us) = ground (arith, count-le-length us)

-- On a valid table `users_count` is at most 64, and `users_name_at` gives at each index below it
-- the name that stands there among the names in use, and NULL from it on.
pub users_name_at-names :
    (db : List User)
    → IsValid db
    → (users_count db ≤ 64)
      × (users_count db ≡ length (names db))
      × ((i : ℕ) → users_name_at db i ≡ get_elem? (names db) i)
unfolding users_name_at
users_name_at-names db v = (
  omega (arith, count-le-length db, v.size),
  users_count-names db,
  λ i. name_at_from-names db 0 i (omega arith) ∙ ap (get_elem? (names db)) (omega arith),
)

-- Every name that the table lists fits a length byte.
pub names-Fits : (us : List User) → All EntryFits us → All Fits (names us)
unfolding names
names-Fits [] h = tt
names-Fits (u ∷ us) h = elim (Bool-cases u.used) [
  | inl busy ↦ rw busy ((h.0 busy).0, names-Fits us h.1)
  | inr free ↦ rw free (names-Fits us h.1)
]
