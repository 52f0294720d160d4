-- ===== src/Selector/Capacity.antt =====
-- `next_capacity` of src/selector.c: its loop ends, and the table that it asks for has room.
use tpe2026c1_socks.Prelude.{
  ==_iff, Bool-cases, ap, arith, false, inl, inr, leb, le→leb, ltb, lt→ltb, refl, some, suc, true,
  zero, ℕ, ◌%◌, ◌*◌, ◌+◌, ◌/◌, ◌<◌, ◌==◌, ◌>>=◌, ◌^◌, ◌∙◌, ◌≡◌, ◌≤◌, dec_lt, ◌⊎◌,
}
use tpe2026c1_socks.Selector.{count_bits, items_max_size, next_capacity}

-- The loop counts the bits: the value lies below 2 ^ bits, and, if it is not 0, not below half of it.
count_bits_lem :
    (fuel tmp bits : ℕ)
    → tmp < fuel
    → (b : ℕ) × (count_bits fuel tmp bits ≡ some (b + bits))
      × (tmp < 2 ^ b)
      × (2 ^ b ≤ 2 * tmp ⊎ 2 ^ b ≤ 1)
unfolding count_bits
count_bits_lem zero tmp bits h = absurd (omega (arith, h))
count_bits_lem (suc fuel) tmp bits h = elim (Bool-cases (tmp == 0)) [
  | inl z ↦
      let e : tmp ≡ 0 = (==_iff tmp 0).0 z in
      (0, rw z (ap some (omega arith)), omega (arith, e), inr (omega arith))
  | inr ne ↦
      let smaller : tmp / 2 < fuel = ground (arith, ne) in
      let (b, e, low, high) = count_bits_lem fuel (tmp / 2) (bits + 1) smaller in
      let double : 2 ^ suc b ≡ 2 * 2 ^ b = omega arith in
      (
        suc b,
        rw ne (e ∙ ap some (omega arith)),
        omega (arith, low, double),
        elim high [
          | inl h1 ↦ inl (omega (arith, h1, double))
          | inr h1 ↦ inl (ground (arith, h1, double, ne))
        ],
      )
]

-- For a descriptor up to FD_SETSIZE, `next_capacity` does not abort, its loop ends, and the table is
-- larger than the descriptor and no larger than FD_SETSIZE + 1.
pub next_capacity_lem :
    (n : ℕ)
    → n ≤ items_max_size
    → (c : ℕ) × (next_capacity n ≡ some c) × (n < c) × (c ≤ items_max_size + 1)
unfolding next_capacity
next_capacity_lem n h =
    let (b, e, low, high) = count_bits_lem (suc n) n 0 (omega arith) in
    let bits : b + 0 ≡ b = omega arith in
    let fits : 2 ^ b % 2 ^ 64 ≡ 2 ^ b = elim high [
      | inl h1 ↦ omega (arith, h1)
      | inr h1 ↦ omega (arith, h1)
    ] in
    let enough : leb n (2 ^ b) ≡ true = le→leb _ _ (omega (arith, low)) in
    elim (dec_lt items_max_size (2 ^ b)) [
      | yes big ↦ (
        items_max_size + 1,
        rw (e, ◌>>=◌, bits, fits, enough, lt→ltb _ _ big) refl,
        omega arith,
        omega arith,
      )
      | no small ↦
          let f : ltb items_max_size (2 ^ b) ≡ false = ground arith in
          (2 ^ b + 1, rw (e, ◌>>=◌, bits, fits, enough, f) refl, omega (arith, low), omega arith)
    ]
