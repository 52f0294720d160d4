-- ===== src/Users/Operations.antt =====
-- What each operation of users.c does to a valid table, on every branch.
use tpe2026c1_socks.Prelude.{
  Bytes, Option, arith, none, some, true, ◌≡◌, Bool-cases, List, Option-cases, false, if◌then◌else◌,
  inl, inr, refl, replicate, suc, zero, ℕ, ◌&&◌, ◌↔◌, ◌∙◌, ◌≢◌, ◌⊎◌, All, ap, length-replicate, [],
  ◌∷◌,
}
use tpe2026c1_socks.Users.{
  text, valid_field, users_init, User, UsersResult, add_checked, cleared, fill_free, find_from,
  users_full, users_invalid, users_not_found, users_ok, users_add, users_check, users_del, pass_at,
  users_max,
}
use tpe2026c1_socks.Users.Map.{
  password, Found, find_from-Found, find_from-none, password-clear, password-fill_free,
  password-modify,
}
use tpe2026c1_socks.Users.Table.{Fits, IsValid, EntryFits, Unique}
use mathlib.Core.Bool.{false≢true}
use tpe2026c1_socks.Prelude.Text.{str_eq, str_eq_iff}
use tpe2026c1_socks.Users.Keep.{
  All-fill_free, All-modify, Tame, Unique-fill_free, Unique-modify, length-fill_free, length-modify,
}

-- What `users_add` lets through: a string that is not NULL, of 1 to 255 bytes.
pub valid_field-Fits : (s : Option Bytes) → valid_field s 255 ≡ true → Fits (text s)
unfolding valid_field
valid_field-Fits none h = absurd (cc)
valid_field-Fits (some s) h = ground arith

pub password-nil : (n : ℕ) (m : Bytes) → password (replicate n cleared) m ≡ none
unfolding password
password-nil zero m = refl
password-nil (suc n) m = password-nil n m

set_pass-Tame : (p : Bytes) → Tame (λ u. record u { pass = p })
set_pass-Tame p u t = (t, refl)

clear-Tame : Tame (λ _. cleared)
clear-Tame u t = absurd (false≢true t)

-- The loop gives up only where every entry is used.
fill_free-none :
    (db : List User) (n p : Bytes) → fill_free db n p ≡ none → All (λ u. u.used ≡ true) db
unfolding fill_free
fill_free-none [] n p e = tt
fill_free-none (u ∷ us) n p e = elim (Bool-cases u.used) [
  | inl taken ↦ elim (Option-cases (fill_free us n p)) [
    | inl full ↦ (taken, fill_free-none us n p full)
    | inr (us', filled) ↦
        let q : fill_free (u ∷ us) n p ≡ some (u ∷ us') = rw (fill_free, taken, filled) refl in
        absurd (cc)
  ]
  | inr free ↦
      let q : fill_free (u ∷ us) n p ≡ some (record { used = true; name = n; pass = p } ∷ us) =
        rw (fill_free, free) refl in
      absurd (cc)
]

-- What adding the name `n` with the password `p` may do to the table `db`: the map changes at `n`
-- alone, or `n` has no entry, every entry is used and the table stays as it was.
abbrev pub Added : List User → Bytes → Bytes → UsersResult × List User → Type 0
Added db n p (users_ok, db') =
    (m : Bytes) → password db' m ≡ (if str_eq n m then some p else password db m)
Added db n p (users_full, db') = (db' ≡ db) × (password db n ≡ none) × All (λ u. u.used ≡ true) db
Added db n p _ = ⊥

add_checked-Added : (db : List User) (n p : Bytes) → IsValid db → Added db n p (add_checked db n p)
unfolding add_checked
add_checked-Added db n p v = elim (Option-cases (find_from 0 db n)) [
  | inl new ↦
      let (free, f) = find_from-none db n 0 new in
      elim (Option-cases (fill_free db n p)) [
        | inl full ↦ rw (new, full, add_checked) (refl, free, fill_free-none db n p full)
        | inr (db', e) ↦ rw (new, e, add_checked) (λ m. password-fill_free db n p m e f)
      ]
  | inr (i, e) ↦
      let f : Found db n 0 i = find_from-Found db n 0 e in
      let at : i ≡ f.offset = omega (arith, f.index) in
      rw (e, at, add_checked) (λ m. password-modify db f.offset n p m v.unique f.entry)
]

add_checked-IsValid :
    (db : List User) (n p : Bytes) → Fits n → Fits p → IsValid db → IsValid (add_checked db n p).1
unfolding add_checked
add_checked-IsValid db n p hn hp v = elim (Option-cases (find_from 0 db n)) [
  | inl new ↦
      let (free, f) = find_from-none db n 0 new in
      elim (Option-cases (fill_free db n p)) [
        | inl full ↦ rw (new, full, add_checked) v
        | inr (db', e) ↦
            rw (new, e, add_checked)
              (record {
                size = length-fill_free n p db e ∙ v.size;
                fits = All-fill_free n p EntryFits db (λ _. (hn, hp)) e v.fits;
                unique = Unique-fill_free n p db e f v.unique;
              })
      ]
  | inr (i, e) ↦
      rw (e, add_checked)
        (record {
          size = length-modify (λ u. record u { pass = p }) db i ∙ v.size;
          fits =
              All-modify (λ u. record u { pass = p }) EntryFits db i (λ u h t. ((h t).0, hp))
                v.fits;
          unique = Unique-modify (λ u. record u { pass = p }) db i (set_pass-Tame p) v.unique;
        })
]

pub users_add_lem :
    (db : List User) (name pass : Option Bytes)
    → IsValid db
    → IsValid (users_add db name pass).1
      × (((users_add db name pass ≡ (users_invalid, db))
            × (((valid_field name 255 && valid_field pass 255) ≡ false)))
          ⊎ (Fits (text name)
              × Fits (text pass)
              × Added db (text name) (text pass) (users_add db name pass)))
unfolding users_add
users_add_lem db name pass v = elim (Bool-cases (valid_field name 255)) [
  | inr unfit ↦ rw unfit (v, inl (refl, refl))
  | inl good ↦ elim (Bool-cases (valid_field pass 255)) [
    | inr unfit ↦ rw (good, unfit) (v, inl (refl, refl))
    | inl fine ↦
        let hn = valid_field-Fits name good in
        let hp = valid_field-Fits pass fine in
        rw (good, fine)
          (
            add_checked-IsValid db (text name) (text pass) hn hp v,
            inr (hn, hp, add_checked-Added db (text name) (text pass) v),
          )
  ]
]

-- `users_del` of a string on a valid table leaves a valid table; where the table maps the name, it
-- takes exactly that name from the map and reports success, and otherwise it reports that the name
-- is not found and changes nothing.
pub users_del_lem :
    (db : List User) (name : Bytes)
    → IsValid db
    → IsValid (users_del db (some name)).1
      × (((users_del db (some name) ≡ (users_not_found, db)) × (password db name ≡ none))
          ⊎ (((users_del db (some name)).0 ≡ users_ok)
              × (password db name ≢ none)
              × ((m : Bytes)
                  → password (users_del db (some name)).1 m
                    ≡ (if str_eq name m then none else password db m))))
unfolding users_del
users_del_lem db name v = elim (Option-cases (find_from 0 db name)) [
  | inl new ↦ rw (new, users_del) (v, inl (refl, (find_from-none db name 0 new).0))
  | inr (i, e) ↦
      let f : Found db name 0 i = find_from-Found db name 0 e in
      let at : i ≡ f.offset = omega (arith, f.index) in
      rw (e, at, users_del)
        (
          record {
            size = length-modify (λ _. cleared) db f.offset ∙ v.size;
            fits =
                All-modify (λ _. cleared) EntryFits db f.offset (λ u h t. absurd (false≢true t))
                  v.fits;
            unique = Unique-modify (λ _. cleared) db f.offset clear-Tame v.unique;
          },
          inr (refl, (λ z. cc (f.mapped)), λ m. password-clear db f.offset name m v.unique f.entry),
        )
]

-- `users_check` accepts exactly the name and password pairs of the map, and refuses NULL.
pub users_check_iff :
    (db : List User) (name pass : Option Bytes)
    → (users_check db name pass ≡ true)
      ↔ ((n : Bytes) × (p : Bytes) × (name ≡ some n) × (pass ≡ some p) × (password db n ≡ some p))
unfolding users_check
users_check_iff db none pass = (λ h. absurd (cc), λ h. cc (h.2))
users_check_iff db (some n) none = (λ h. absurd (cc), λ h. cc (h.3))
users_check_iff db (some n) (some p) = elim (Option-cases (find_from 0 db n)) [
  | inl new ↦
      let z : password db n ≡ none = (find_from-none db n 0 new).0 in
      rw (new, users_check) (λ h. absurd (cc), λ (a, b, e, f, g). absurd (ground (arith)))
  | inr (i, e) ↦
      let f : Found db n 0 i = find_from-Found db n 0 e in
      let at : i ≡ f.offset = omega (arith, f.index) in
      rw (e, at, users_check)
        (
          λ h. (n, p, refl, refl, f.mapped ∙ ap some ((str_eq_iff (pass_at db f.offset) p).0 h)),
          λ (a, b, x, y, w). (str_eq_iff (pass_at db f.offset) p).1 (cc (f.mapped)),
        )
]

cleared-fits : (n : ℕ) → All EntryFits (replicate n cleared)
cleared-fits zero = tt
cleared-fits (suc n) = ((λ t. absurd (false≢true t)), cleared-fits n)

cleared-Unique : (n : ℕ) → Unique (replicate n cleared)
cleared-Unique zero = tt
cleared-Unique (suc n) = ((λ t. absurd (false≢true t)), cleared-Unique n)

-- The table that `users_init` leaves is valid and maps no name.
pub users_init_lem : IsValid users_init × ((m : Bytes) → password users_init m ≡ none)
unfolding users_init
users_init_lem = (
  record {
    size = length-replicate users_max cleared;
    fits = cleared-fits users_max;
    unique = cleared-Unique users_max;
  },
  password-nil users_max,
)
