-- ===== src/Args/Split.antt =====
-- `split_userpass` of src/args.c.
use tpe2026c1_socks.Args.{at_colon, split_userpass}
use tpe2026c1_socks.Prelude.{
  ==_iff, Bool-cases, Bytes, Option-cases, [], ap, arith, false, has, inl, inr, leb, length, refl,
  some, some_inj, sym, ℕ, ◌++◌, ◌<◌, ◌==◌, ◌>>=◌, ◌||◌, ◌↔◌, ◌∷◌, ◌≡◌,
}

at_colon-some :
    (arg u p : Bytes) → at_colon arg ≡ some (u, p) → (u ++ b':' ∷ p ≡ arg) × (has b':' u ≡ false)
unfolding at_colon has
at_colon-some [] u p e = absurd (cc)
at_colon-some (c ∷ cs) u p e = elim (Bool-cases (c == b':')) [
  | inl colon ↦
      let q : ([], cs) ≡ (u, p) = some_inj (rw colon at e) in
      rw (← ap (λ (t : Bytes × Bytes). t.0) q, ← ap (λ (t : Bytes × Bytes). t.1) q)
        (ap (λ z. z ∷ cs) (sym ((==_iff c b':').0 colon)), refl)
  | inr other ↦ elim (Option-cases (at_colon cs)) [
    | inl missing ↦ absurd (cc (rw (other, missing) at e))
    | inr ((v, w), f) ↦
        let q : (c ∷ v, w) ≡ (u, p) = some_inj (rw (other, f) at e) in
        let (k, l) = at_colon-some cs v w f in
        rw (← ap (λ (t : Bytes × Bytes). t.0) q, ← ap (λ (t : Bytes × Bytes). t.1) q)
          (ap (λ z. c ∷ z) k, rw other l)
  ]
]

at_colon-append : (u p : Bytes) → has b':' u ≡ false → at_colon (u ++ b':' ∷ p) ≡ some (u, p)
unfolding at_colon has
at_colon-append [] p h = refl
at_colon-append (c ∷ u) p h =
    let other : (c == b':') ≡ false = ground arith in
    let later : has b':' u ≡ false = ground arith in rw (other, at_colon-append u p later) refl

-- A field that an array of the size takes, with its terminator, and that is not empty.
abbrev pub Fills : ℕ → Bytes → Type 0
Fills size s = (0 < length s) × (length s < size)

-- `split_userpass` accepts exactly a text made of a name without a colon, a colon and a password,
-- each not empty and fit for its array, and returns these two.
pub split_userpass_iff :
    (arg u p : Bytes) (ulen plen : ℕ)
    → (split_userpass arg ulen plen ≡ some (u, p))
      ↔ ((u ++ b':' ∷ p ≡ arg) × (has b':' u ≡ false) × Fills ulen u × Fills plen p)
unfolding split_userpass
split_userpass_iff arg u p ulen plen = (
  λ e. elim (Option-cases (at_colon arg)) [
    | inl missing ↦ absurd (cc (rw (missing, ◌>>=◌) at e))
    | inr ((v, w), f) ↦ elim (Bool-cases (length v == 0)) [
      | inl empty ↦ absurd (cc (rw (f, ◌>>=◌, empty) at e))
      | inr name ↦ elim (Bool-cases (leb ulen (length v) || length w == 0 || leb plen (length w))) [
        | inl long ↦ absurd (cc (rw (f, ◌>>=◌, name, long) at e))
        | inr fit ↦
            let q : (v, w) ≡ (u, p) = some_inj (rw (f, ◌>>=◌, name, fit) at e) in
            let (k, l) = at_colon-some arg v w f in
            rw (← ap (λ (t : Bytes × Bytes). t.0) q, ← ap (λ (t : Bytes × Bytes). t.1) q)
              (k, l, ground arith, ground arith)
      ]
    ]
  ],
  λ (k, l, a, b).
      let found : at_colon arg ≡ some (u, p) = rw (← k) (at_colon-append u p l) in
      let name : (length u == 0) ≡ false = ground arith in
      let fit : (leb ulen (length u) || length p == 0 || leb plen (length p)) ≡ false =
        ground arith in
      rw (found, ◌>>=◌, name, fit) refl,
)
