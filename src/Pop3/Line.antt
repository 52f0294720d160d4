-- ===== src/Pop3/Line.antt =====
-- One byte of the stream in the line buffer of src/pop3.c.
use tpe2026c1_socks.Pop3.Spec.{hear, chomp}
use tpe2026c1_socks.Pop3.{
  Sniffer, feed_byte, line_end, line_size, pass_word, process_line, starts_with, user_word,
}
use tpe2026c1_socks.Prelude.{
  Bool, Bool-cases, Bytes, List, [], ap, arith, false, if◌then◌else◌, inl, inr, length,
  length-append, ltb, lt→ltb, refl, some, suc, sym, take, true, zero, ℕ, ◌&&◌, ◌++◌, ◌+◌, ◌-◌, ◌<◌,
  ◌==◌, ◌>>=◌, ◌∙◌, ◌∷◌, ◌≡◌, ◌≤◌, ◌⊎◌, dec_lt, take_less,
}
use tpe2026c1_socks.Prelude.Memory.{byte_at, byte_at-take, length-splice, splice, store, store_in}
use tpe2026c1_socks.Prelude.Text.{c_string}

-- The sniffer has read `cur` of the line begun.
pub record HoldsLine (p : Sniffer) (cur : Bytes) : Type 0 where
  pub array : length p.line ≡ line_size
  pub bounded : p.len ≤ 511
  pub read :
      ((p.overflow ≡ false) × (p.len ≡ length cur) × (take p.len p.line ≡ cur))
      ⊎ ((p.overflow ≡ true) × (511 < length cur))

take_put :
    (xs : Bytes) (n c : ℕ)
    → n < length xs
    → take (n + 1) (splice xs n (c ∷ [])) ≡ take n xs ++ c ∷ []
take_put [] n c h = absurd (omega (arith, h))
take_put (x ∷ xs) zero c h = refl
take_put (x ∷ xs) (suc n) c h =
    let e : suc n + 1 ≡ suc (n + 1) = omega arith in
    rw e (ap (λ t. x ∷ t) (take_put xs n c (omega arith)))

c_string-terminate :
    (xs : Bytes) (n : ℕ) → n < length xs → c_string (splice xs n (0 ∷ [])) ≡ c_string (take n xs)
c_string-terminate [] n h = absurd (omega (arith, h))
c_string-terminate (x ∷ xs) zero h = refl
c_string-terminate (x ∷ xs) (suc n) h =
    ap (λ t. if x == 0 then [] else x ∷ t) (c_string-terminate xs n (omega arith))

line_end-le : (p : Sniffer) → line_end p ≤ p.len
unfolding line_end
line_end-le p = ground arith

-- Whether the line's last byte is a carriage return.
abbrev returns : Bytes → ℕ → Bool
returns line n = ltb 0 n && byte_at line (n - 1) == 13

returns-take : (line : Bytes) (n : ℕ) → returns (take n line) n ≡ returns line n
returns-take line n = elim (dec_lt 0 n) [
  | yes h ↦ rw (byte_at-take line n (n - 1) (omega arith)) refl
  | no h ↦ let e : ltb 0 n ≡ false = ground arith in rw e refl
]

chomp-take :
    (line : Bytes) (n : ℕ)
    → length (take n line) ≡ n
    → take (if returns line n then n - 1 else n) line ≡ chomp (take n line)
chomp-take line n l = rw l (rw (returns-take line n) (chomp_cases (returns line n)))
  where
    chomp_cases :
        (b : Bool)
        → take (if b then n - 1 else n) line
          ≡ (if b then take (n - 1) (take n line) else take n line)
    chomp_cases true = sym (take_less line (n - 1) n (omega arith))
    chomp_cases false = refl

-- What stands in front of the line's end.
line_end-chomp :
    (p : Sniffer) (cur : Bytes)
    → p.len ≡ length cur
    → take p.len p.line ≡ cur
    → take (line_end p) p.line ≡ chomp cur
unfolding line_end
line_end-chomp p cur l t = chomp-take p.line p.len (ap length t ∙ sym l) ∙ ap chomp t

process_line-hear :
    (p : Sniffer)
    → process_line p ≡ (
      record p {
        user = (hear p.user p.have_user (c_string p.line)).0;
        have_user = (hear p.user p.have_user (c_string p.line)).1;
      },
      (hear p.user p.have_user (c_string p.line)).2,
    )
unfolding process_line hear
process_line-hear p = elim (Bool-cases (starts_with user_word (c_string p.line))) [
  | inl t ↦ rw t
  | inr t ↦ elim (Bool-cases (starts_with pass_word (c_string p.line) && p.have_user)) [
    | inl u ↦ rw (t, u)
    | inr u ↦ rw (t, u)
  ]
]

-- The sniffer with an array and what a command made of the user.
abbrev pub heard : Sniffer → Bytes → Bytes × Bool × List (Bytes × Bytes) → Sniffer
heard p d (user, have, out) = record {
  line = d;
  len = 0;
  overflow = false;
  user = user;
  have_user = have;
}

-- A newline ends a line that was kept.
pub feed_newline :
    (p : Sniffer) (cur : Bytes)
    → length p.line ≡ line_size
    → p.len ≤ 511
    → p.overflow ≡ false
    → p.len ≡ length cur
    → take p.len p.line ≡ cur
    → (d : Bytes) × (feed_byte p 10
        ≡ some (
          heard p d (hear p.user p.have_user (c_string (chomp cur))),
          (hear p.user p.have_user (c_string (chomp cur))).2,
        ))
      × (length d ≡ line_size)
unfolding feed_byte
feed_newline p cur a b o l t =
    let e : line_end p < length p.line = omega (arith, line_end-le p) in
    let d : Bytes = splice p.line (line_end p) (0 ∷ []) in
    let stored : store p.line (line_end p) (0 ∷ []) ≡ some d =
      store_in p.line (line_end p) (0 ∷ []) (omega arith) in
    let text : c_string d ≡ c_string (chomp cur) =
      c_string-terminate p.line (line_end p) e ∙ ap c_string (line_end-chomp p cur l t) in
    (
      d,
      rw (stored, ◌>>=◌, process_line-hear (record p { line = d }), text, o) refl,
      length-splice p.line (line_end p) (0 ∷ []) ∙ a,
    )

-- A newline ends a line that was too long.
pub feed_newline_long :
    (p : Sniffer)
    → length p.line ≡ line_size
    → p.len ≤ 511
    → p.overflow ≡ true
    → (d : Bytes) × (feed_byte p 10 ≡ some (heard p d (p.user, p.have_user, []), []))
      × (length d ≡ line_size)
unfolding feed_byte
feed_newline_long p a b o =
    let stored = store_in p.line (line_end p) (0 ∷ []) (omega (arith, line_end-le p)) in
    (
      splice p.line (line_end p) (0 ∷ []),
      rw (stored, ◌>>=◌, o) refl,
      length-splice p.line (line_end p) (0 ∷ []) ∙ a,
    )

-- Another byte joins the line, as long as it fits.
pub feed_other :
    (p : Sniffer) (cur : Bytes) (c : ℕ)
    → HoldsLine p cur
    → (c == 10) ≡ false
    → (q : Sniffer) × (feed_byte p c ≡ some (q, []))
      × HoldsLine q (cur ++ c ∷ [])
      × (q.user ≡ p.user)
      × (q.have_user ≡ p.have_user)
unfolding feed_byte
feed_other p cur c h n = elim h.read [
  | inr (o, long) ↦ (
    p,
    rw (n, o) refl,
    record {
      array = h.array;
      bounded = h.bounded;
      read = inr (o, omega (arith, length-append cur (c ∷ [])));
    },
    refl,
    refl,
  )
  | inl (o, l, t) ↦ elim (dec_lt p.len 511) [
    | yes room ↦
        let stored : store p.line p.len (c ∷ []) ≡ some (splice p.line p.len (c ∷ [])) =
          store_in p.line p.len (c ∷ []) (omega (arith, h.array)) in
        (
          record p { line = splice p.line p.len (c ∷ []); len = p.len + 1 },
          rw (n, lt→ltb _ _ room, stored, ◌>>=◌, o) refl,
          record {
            array = length-splice p.line p.len (c ∷ []) ∙ h.array;
            bounded = omega arith;
            read = inl (
              o,
              omega (arith, length-append cur (c ∷ [])),
              take_put p.line p.len c (omega (arith, h.array)) ∙ ap (λ s. s ++ c ∷ []) t,
            );
          },
          refl,
          refl,
        )
    | no full ↦
        let no_room : ltb p.len 511 ≡ false = ground arith in
        (
          record p { overflow = true },
          rw (n, no_room, o) refl,
          record {
            array = h.array;
            bounded = h.bounded;
            read = inr (refl, omega (arith, length-append cur (c ∷ [])));
          },
          refl,
          refl,
        )
  ]
]
