-- ===== src/Client/RoundTrip.antt =====
-- What the client sends is what the server reads, however the stream cuts it.
use tpe2026c1_socks.Mgmt.Parse.{MgmtReq, consumed, need_more, no_req, parse_request}
use tpe2026c1_socks.Prelude.{
  Bytes, [], arith, length, length-take, refl, take, ℕ, ◌++◌, ◌+◌, ◌<◌, ◌∷◌, ◌≡◌, ◌≤◌, dec_lt, ap,
  some, ◌∙◌, Bool-cases, append-nil, inl, inr, ltb, ◌%◌, ◌==◌, ◌||◌, some_inj,
}
use tpe2026c1_socks.Prelude.Memory.{byte_at, window, byte_at-take}
use tpe2026c1_socks.Prelude.Text.{IsText, c_string, c_string-IsText}
use tpe2026c1_socks.Smp.{smp_cmd_add_user, smp_version}
use tpe2026c1_socks.Client.{cmd_add_user_bytes}
use tpe2026c1_socks.Client.Frame.{
  length-two_fields, second_length, two_fields, two_fields-append, first_field, second_field,
}
use mathlib.Core.Path.{ap₂}

-- The server takes exactly the bytes `bs` for a request `r`, whatever follows them, and waits while
-- it has only a part of them.
pub record Delivers (bs : Bytes) (r : MgmtReq) : Type 0 where
  pub whole : (rest : Bytes) → parse_request (bs ++ rest) ≡ (consumed (length bs), r)
  pub part : (k : ℕ) → k < length bs → (parse_request (take k bs)).0 ≡ need_more

length-cut : (k : ℕ) (bs : Bytes) → k < length bs → length (take k bs) ≡ k
length-cut k bs h = omega (arith, length-take k bs)

-- The parser of ADD_USER on bytes that hold its two lengths.
add_user_whole :
    (p : Bytes) (m n : ℕ)
    → byte_at p 0 ≡ smp_version
    → byte_at p 1 ≡ smp_cmd_add_user
    → byte_at p 2 ≡ m
    → byte_at p (3 + m) ≡ n
    → 0 < m
    → 0 < n
    → 4 + m + n ≤ length p
    → parse_request p ≡ (
      consumed (4 + m + n),
      record no_req {
        cmd = smp_cmd_add_user;
        user = c_string (window p 3 m);
        pass = c_string (window p (4 + m) n);
      },
    )
unfolding parse_request
add_user_whole p m n e0 e1 e2 e3 lm ln h =
    let need : 3 + m + 1 + n ≡ 4 + m + n = omega arith in rw (e0, e1, e2, e3, need) (ground arith)

add_user_part :
    (p : Bytes) (m n : ℕ)
    → (0 < length p → byte_at p 0 ≡ smp_version)
    → (1 < length p → byte_at p 1 ≡ smp_cmd_add_user)
    → (2 < length p → byte_at p 2 ≡ m)
    → (3 + m < length p → byte_at p (3 + m) ≡ n)
    → 0 < m
    → 0 < n
    → length p < 4 + m + n
    → (parse_request p).0 ≡ need_more
unfolding parse_request
add_user_part p m n e0 e1 e2 e3 lm ln h = elim (dec_lt (length p) 3) [
  | yes short ↦ ground arith
  | no long ↦ rw (e0 (omega arith), e1 (omega arith), e2 (omega arith)) (ground arith)
]

abbrev add_user_frame : Bytes → Bytes → Bytes
add_user_frame u w = two_fields (smp_version ∷ smp_cmd_add_user ∷ []) u w []

module _ (u w : Bytes) (lu : 0 < length u) (lw : 0 < length w) where
  frame_length : length (add_user_frame u w) ≡ 4 + length u + length w
  frame_length = omega (arith, length-two_fields (smp_version ∷ smp_cmd_add_user ∷ []) u w [])

  frame_whole :
      (rest : Bytes)
      → IsText u
      → IsText w
      → parse_request ((add_user_frame u w) ++ rest) ≡ (
        consumed (length (add_user_frame u w)),
        record no_req { cmd = smp_cmd_add_user; user = u; pass = w },
      )
  frame_whole rest hu hw =
      let pre : Bytes = smp_version ∷ smp_cmd_add_user ∷ [] in
      rw (two_fields-append pre u w rest, frame_length)
        (add_user_whole (two_fields pre u w rest) (length u) (length w) refl refl refl
            (second_length pre u w rest (3 + length u) (omega arith)) lu lw
            (omega (arith, length-two_fields pre u w rest))
          ∙ ap
              (λ (t : Bytes × Bytes). (
                consumed (4 + length u + length w),
                record no_req { cmd = smp_cmd_add_user; user = t.0; pass = t.1 },
              ))
              (ap₂ (λ a b. (a, b))
                (ap c_string (first_field pre u w rest 3 (omega arith)) ∙ c_string-IsText u hu)
                (ap c_string (second_field pre u w rest (4 + length u) (omega arith))
                  ∙ c_string-IsText w hw)))

  frame_part :
      (k : ℕ)
      → k < length (add_user_frame u w)
      → (parse_request (take k (add_user_frame u w))).0 ≡ need_more
  frame_part k h =
      let pre : Bytes = smp_version ∷ smp_cmd_add_user ∷ [] in
      let l : length (take k (add_user_frame u w)) ≡ k = length-cut k (add_user_frame u w) h in
      add_user_part (take k (add_user_frame u w)) (length u) (length w)
        (λ a. byte_at-take (add_user_frame u w) k 0 (omega (arith, l)))
        (λ a. byte_at-take (add_user_frame u w) k 1 (omega (arith, l)))
        (λ a. byte_at-take (add_user_frame u w) k 2 (omega (arith, l)))
        (λ a.
          byte_at-take (add_user_frame u w) k (3 + length u) (omega (arith, l))
          ∙ second_length pre u w [] (3 + length u) (omega arith))
        lu lw (omega (arith, l, frame_length))

add_user_sent :
    (u w : Bytes) {bs : Bytes}
    → cmd_add_user_bytes u w ≡ some bs
    → (0 < length u) × (0 < length w) × (add_user_frame u w ≡ bs)
unfolding cmd_add_user_bytes
add_user_sent u w {bs} e =
    elim (Bool-cases (length u == 0 || ltb 255 (length u) || length w == 0 || ltb 255 (length w))) [
      | inl unfit ↦ absurd (cc (rw unfit at e))
      | inr fit ↦
          let lu : (0 < length u) × (length u ≤ 255) = ground arith in
          let lw : (0 < length w) × (length w ≤ 255) = ground arith in
          let mu : length u % 256 ≡ length u = omega arith in
          let mw : length w % 256 ≡ length w = omega arith in
          (lu.0, lw.0, rw append-nil (some_inj (rw (fit, mu, mw) at e)))
    ]

-- What the client sends for `add-user` with two strings that it accepts is one request to the
-- server: whatever follows, the server consumes exactly those bytes and reads the same name and
-- password, and it waits while it has received only a part of them.
pub cmd_add_user-Delivers :
    (u w : Bytes) {bs : Bytes}
    → IsText u
    → IsText w
    → cmd_add_user_bytes u w ≡ some bs
    → Delivers bs (record no_req { cmd = smp_cmd_add_user; user = u; pass = w })
cmd_add_user-Delivers u w hu hw e =
    let (lu, lw, f) = add_user_sent u w e in
    rw (← f) (record {
      whole = λ rest. frame_whole u w lu lw rest hu hw;
      part = λ k h. frame_part u w lu lw k h;
    })
