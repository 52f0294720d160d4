-- ===== src/Users/Keep.antt =====
-- The parts of the table's invariant under a change of one entry and under a new entry.
use tpe2026c1_socks.Prelude.{
  All, Bytes, List, [], ap, inl, inr, length, refl, some, suc, sym, true, zero, ℕ, ◌∙◌, ◌∷◌, ◌≡◌,
  ◌≢◌,
}
use tpe2026c1_socks.Users.{User, fill_free, modify}
use tpe2026c1_socks.Users.Map.{fill_free-some}
use tpe2026c1_socks.Users.Table.{Fresh, Unique}

-- A change of entries that takes none into use and renames none in use.
abbrev pub Tame : (User → User) → Type 0
Tame f = (u : User) → (f u).used ≡ true → (u.used ≡ true) × ((f u).name ≡ u.name)

module _ (f : User → User) where
  pub length-modify : (us : List User) (i : ℕ) → length (modify us i f) ≡ length us
  length-modify [] i = refl
  length-modify (u ∷ us) zero = refl
  length-modify (u ∷ us) (suc i) = ap suc (length-modify us i)

  pub All-modify {κ} :
      (P : User → Type κ) (us : List User) (i : ℕ)
      → ((u : User) → P u → P (f u))
      → All P us
      → All P (modify us i f)
  All-modify P [] i keep h = h
  All-modify P (u ∷ us) zero keep h = (keep u h.0, h.1)
  All-modify P (u ∷ us) (suc i) keep h = (h.0, All-modify P us i keep h.1)

  Fresh-modify :
      (us : List User) (i : ℕ) (m : Bytes) → Tame f → Fresh m us → Fresh m (modify us i f)
  Fresh-modify us i m tame h =
      All-modify (λ u. u.used ≡ true → u.name ≢ m) us i
        (λ u g t e. g (tame u t).0 (sym (tame u t).1 ∙ e)) h

  pub Unique-modify : (us : List User) (i : ℕ) → Tame f → Unique us → Unique (modify us i f)
  Unique-modify [] i tame q = q
  Unique-modify (u ∷ us) zero tame q = (λ t. rw (tame u t).1 (q.0 (tame u t).0), q.1)
  Unique-modify (u ∷ us) (suc i) tame q =
      (λ t. Fresh-modify us i u.name tame (q.0 t), Unique-modify us i tame q.1)

module _ (n p : Bytes) where
  pub length-fill_free :
      (us : List User) {us' : List User} → fill_free us n p ≡ some us' → length us' ≡ length us
  length-fill_free [] e = unfold fill_free in cc
  length-fill_free (u ∷ us) e = elim (fill_free-some u us n p e) [
    | inl (free, g) ↦ rw g
    | inr (busy, (vs, g, h)) ↦ rw (h, length-fill_free us g)
  ]

  pub All-fill_free {κ} :
      (P : User → Type κ) (us : List User) {us' : List User}
      → P (record { used = true; name = n; pass = p })
      → fill_free us n p ≡ some us'
      → All P us
      → All P us'
  All-fill_free P [] k e h = unfold fill_free in absurd (cc)
  All-fill_free P (u ∷ us) k e h = elim (fill_free-some u us n p e) [
    | inl (free, g) ↦ rw g (k, h.1)
    | inr (busy, (vs, g, r)) ↦ rw r (h.0, All-fill_free P us k g h.1)
  ]

  pub Unique-fill_free :
      (us : List User) {us' : List User}
      → fill_free us n p ≡ some us'
      → Fresh n us
      → Unique us
      → Unique us'
  Unique-fill_free [] e f q = unfold fill_free in absurd (cc)
  Unique-fill_free (u ∷ us) e f q = elim (fill_free-some u us n p e) [
    | inl (free, g) ↦ rw g ((λ _. f.1), q.1)
    | inr (busy, (vs, g, r)) ↦ rw r (
      (λ t.
          All-fill_free (λ v. v.used ≡ true → v.name ≢ u.name) us (λ _ e'. f.0 t (sym e')) g
            (q.0 t)),
      Unique-fill_free us g f.1 q.1,
    )
  ]
