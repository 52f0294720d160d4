-- ===== src/Users/Map.antt =====
-- The table as a map from names to passwords: what each operation does to it.
use tpe2026c1_socks.Prelude.{
  Bool-cases, Bytes, List, Option, [], arith, if◌then◌else◌, inl, inr, none, refl, some, suc, true,
  zero, ℕ, ◌&&◌, ◌+◌, ◌∷◌, ◌≡◌, ◌≢◌, Option-cases, false, ◌⊎◌,
}
use tpe2026c1_socks.Prelude.Text.{str_eq, str_eq_iff}
use tpe2026c1_socks.Users.{User, find_from, pass_at, cleared, fill_free, modify}
use tpe2026c1_socks.Users.Table.{Fresh, Unique}

-- The password of the entry in use with this name.
unfoldable pub password : List User → Bytes → Option Bytes
password [] m = none
password (u ∷ us) m = if u.used && str_eq u.name m then some u.pass else password us m

-- An entry in use with this name, at index `i`.
abbrev pub EntryAt : List User → ℕ → Bytes → Type 0
EntryAt [] i m = ⊥
EntryAt (u ∷ us) zero m = (u.used ≡ true) × (u.name ≡ m)
EntryAt (u ∷ us) (suc i) m = EntryAt us i m

-- What the index that `find` returns is good for.
pub record Found (us : List User) (m : Bytes) (i j : ℕ) : Type 0 where
  pub offset : ℕ
  pub index : j ≡ i + offset
  pub entry : EntryAt us offset m
  pub mapped : password us m ≡ some (pass_at us offset)

pub find_from-Found :
    (us : List User) (m : Bytes) (i : ℕ) {j : ℕ} → find_from i us m ≡ some j → Found us m i j
unfolding find_from password
find_from-Found [] m i e = cc
find_from-Found (u ∷ us) m i e = elim (Bool-cases (u.used && str_eq u.name m)) [
  | inl here ↦ record {
    offset = 0;
    index = ground arith;
    entry = ground (arith, str_eq_iff u.name m);
    mapped = rw here;
  }
  | inr later ↦
      let f : Found us m (suc i) _ = find_from-Found us m (suc i) (rw later at e) in
      record {
        offset = suc f.offset;
        index = omega (arith, f.index);
        entry = f.entry;
        mapped = rw later f.mapped;
      }
]

pub find_from-none :
    (us : List User) (m : Bytes) (i : ℕ)
    → find_from i us m ≡ none
    → (password us m ≡ none) × Fresh m us
unfolding find_from password
find_from-none [] m i e = (refl, tt)
find_from-none (u ∷ us) m i e = elim (Bool-cases (u.used && str_eq u.name m)) [
  | inl here ↦ absurd (not_none here)
  | inr later ↦
      let ih : (password us m ≡ none) × Fresh m us = find_from-none us m (suc i) (rw later at e) in
      (rw later ih.0, ((λ t n. ground (arith, str_eq_iff u.name m)), ih.1))
]
  where
    not_none : (u.used && str_eq u.name m) ≡ true → ⊥
    not_none here = cc (rw here at e)

Fresh-EntryAt : (us : List User) (i : ℕ) (m : Bytes) → Fresh m us → EntryAt us i m → ⊥
Fresh-EntryAt [] i m f e = e
Fresh-EntryAt (u ∷ us) zero m f e = f.0 e.0 e.1
Fresh-EntryAt (u ∷ us) (suc i) m f e = Fresh-EntryAt us i m f.1 e

Fresh-password : (us : List User) (m : Bytes) → Fresh m us → password us m ≡ none
unfolding password
Fresh-password [] m f = refl
Fresh-password (u ∷ us) m f = ground (arith, f.0, str_eq_iff u.name m, Fresh-password us m f.1)

-- No other entry in use has the name of an entry behind it.
head_differs :
    (u : User) (us : List User) (i : ℕ) (m : Bytes)
    → Unique (u ∷ us)
    → EntryAt us i m
    → u.used ≡ true
    → u.name ≢ m
head_differs u us i m q e t n = Fresh-EntryAt us i m (rw n at (q.0 t)) e

-- A new password for an entry in use is what its name maps to, and no other name changes.
pub password-modify :
    (us : List User) (i : ℕ) (n p m : Bytes)
    → Unique us
    → EntryAt us i n
    → password (modify us i (λ u. record u { pass = p })) m
      ≡ (if str_eq n m then some p else password us m)
unfolding password
password-modify [] i n p m q e = absurd e
password-modify (u ∷ us) zero n p m q e =
    ground (arith, e.0, e.1, str_eq_iff u.name m, str_eq_iff n m)
password-modify (u ∷ us) (suc i) n p m q e = ground (
  arith,
  password-modify us i n p m q.1 e,
  head_differs u us i n q e,
  str_eq_iff u.name m,
  str_eq_iff n m,
)

-- A cleared entry takes its name from the map, and no other name changes.
pub password-clear :
    (us : List User) (i : ℕ) (n m : Bytes)
    → Unique us
    → EntryAt us i n
    → password (modify us i (λ _. cleared)) m ≡ (if str_eq n m then none else password us m)
unfolding password
password-clear [] i n m q e = absurd e
password-clear (u ∷ us) zero n m q e =
    ground
      (arith, e.0, e.1, Fresh-password us u.name (q.0 e.0), str_eq_iff u.name m, str_eq_iff n m)
password-clear (u ∷ us) (suc i) n m q e = ground (
  arith,
  password-clear us i n m q.1 e,
  head_differs u us i n q e,
  str_eq_iff u.name m,
  str_eq_iff n m,
)

-- The two ways in which the loop over the free entries succeeds.
pub fill_free-some :
    (u : User) (us : List User) (n p : Bytes) {us' : List User}
    → fill_free (u ∷ us) n p ≡ some us'
    → ((u.used ≡ false) × (us' ≡ record { used = true; name = n; pass = p } ∷ us))
      ⊎ ((u.used ≡ true) × ((vs : List User) × (fill_free us n p ≡ some vs) × (us' ≡ u ∷ vs)))
unfolding fill_free
fill_free-some u us n p e = elim (Bool-cases u.used) [
  | inr free ↦ inl (free, ground arith)
  | inl busy ↦ elim (Option-cases (fill_free us n p)) [
    | inl full ↦ absurd (ground arith)
    | inr (vs, g) ↦ inr (busy, (vs, g, ground arith))
  ]
]

-- Filling a free entry adds a name that is not in the map.
pub password-fill_free :
    (us : List User) (n p m : Bytes) {us' : List User}
    → fill_free us n p ≡ some us'
    → Fresh n us
    → password us' m ≡ (if str_eq n m then some p else password us m)
unfolding password fill_free
password-fill_free [] n p m e f = cc
password-fill_free (u ∷ us) n p m e f = elim (fill_free-some u us n p e) [
  | inl (free, g) ↦ rw (g, free)
  | inr (busy, (vs, g, h)) ↦
      rw h (
        ground (arith, password-fill_free us n p m g f.1, f.0, str_eq_iff u.name m, str_eq_iff n m))
]
