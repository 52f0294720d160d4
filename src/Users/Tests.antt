-- ===== src/Users/Tests.antt =====
-- The operations of src/users.c on a table with one user.
use tpe2026c1_socks.Users.Table.{IsValid}
use tpe2026c1_socks.Prelude.{
  Bytes, List, [], get_elem?, if◌then◌else◌, length, none, refl, some, true, ℕ, ◌↔◌, ◌∷◌, ◌≡◌, ◌≢◌,
  ◌≤◌, ◌⊎◌,
}
use tpe2026c1_socks.Prelude.Text.{str_eq}
use tpe2026c1_socks.Users.{
  User, users_not_found, users_ok, valid_field, users_add, users_check, users_count, users_del,
  users_init, users_name_at,
}
use tpe2026c1_socks.Users.Map.{password}
use tpe2026c1_socks.Users.Names.{names, users_name_at-names}
use tpe2026c1_socks.Users.Operations.{users_add_lem, users_check_iff, users_del_lem, users_init_lem}

abbrev alice : Bytes
alice = b'a' ∷ b'l' ∷ b'i' ∷ b'c' ∷ b'e' ∷ []

abbrev secret : Bytes
secret = b's' ∷ b'3' ∷ []

-- The table after the first `users_add`.
abbrev one_user : List User
one_user = (users_add users_init (some alice) (some secret)).1

one_user-IsValid : IsValid one_user
one_user-IsValid = (users_add_lem users_init (some alice) (some secret) users_init_lem.0).0

count-one_user : users_count one_user ≡ 1
unfolding users_add users_init users_count valid_field
count-one_user = refl

users_del_lem_example :
    IsValid (users_del one_user (some alice)).1
    × (((users_del one_user (some alice) ≡ (users_not_found, one_user))
          × (password one_user alice ≡ none))
        ⊎ (((users_del one_user (some alice)).0 ≡ users_ok)
            × (password one_user alice ≢ none)
            × ((m : Bytes)
                → password (users_del one_user (some alice)).1 m
                  ≡ (if str_eq alice m then none else password one_user m))))
users_del_lem_example = users_del_lem one_user alice one_user-IsValid

users_check_iff_example : (users_check one_user (some alice) (some secret) ≡ true) ↔ (
    (n : Bytes) × (p : Bytes) × (some alice ≡ some n)
    × (some secret ≡ some p)
    × (password one_user n ≡ some p))
users_check_iff_example = users_check_iff one_user (some alice) (some secret)

users_name_at-names_example :
    (users_count one_user ≤ 64)
    × (users_count one_user ≡ length (names one_user))
    × ((i : ℕ) → users_name_at one_user i ≡ get_elem? (names one_user) i)
users_name_at-names_example = users_name_at-names one_user one_user-IsValid
