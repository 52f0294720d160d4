-- ===== src/Parsers/Hello/Spec.antt =====
-- The greeting as RFC 1928 lays it out, read at once from the bytes received so far, and the parser
-- against it.
use tpe2026c1_socks.Parsers.Hello.{
  finished, failed, HelloParser, hello_done, hello_methods, hello_parser_feed, method_no_auth,
  method_userpass, hello_parser_init,
}
use tpe2026c1_socks.Parsers.Run.{run, Outcome, bad, complete, more}
use tpe2026c1_socks.Parsers.Collect.{Collects, put_all, run-collect, run-collect_short}
use tpe2026c1_socks.Prelude.{
  Bool, Bytes, [], arith, drop, false, has, if◌then◌else◌, leb, length, suc, take, true, ℕ, ◌-◌,
  ◌<◌, ◌==◌, ◌||◌, ◌∷◌, ◌≡◌, IsBytes, le→leb, refl, dec_le, Bool-cases, inl, inr, zero, ap, ◌∙◌,
}

-- Whether NO AUTHENTICATION and USERNAME/PASSWORD are among the methods.
abbrev pub Offer : Type 0
Offer = Bool × Bool

-- NMETHODS, then that many methods.
pub methods : Bytes → Outcome Offer
methods [] = more
methods (n ∷ r) =
    if leb n (length r)
    then complete (has method_no_auth (take n r), has method_userpass (take n r)) (drop n r)
    else more

unfoldable pub greeting : Bytes → Outcome Offer
unfolding methods
greeting [] = more
greeting (v ∷ r) = if v == 0x05 then methods r else bad r

-- What a run of the parser tells its caller.
abbrev pub outcome : HelloParser × Bytes × Bool → Outcome Offer
outcome (p, rest, done) =
    if done
    then (if failed p then bad rest else complete (p.has_noauth, p.has_userpass) rest)
    else more

module _ (n : ℕ) where
  put : Offer → ℕ → ℕ → Offer
  put a i x =
      (if x == method_no_auth then true else a.0, if x == method_userpass then true else a.1)

  at : Offer → ℕ → HelloParser
  at a i = record { state = hello_methods; remaining = n - i; has_noauth = a.0; has_userpass = a.1 }

  after : Offer → HelloParser
  after a = record { state = hello_done; remaining = 0; has_noauth = a.0; has_userpass = a.1 }

  feed_at : n < 256 → Collects hello_parser_feed finished put at after n
  unfolding hello_parser_feed put at after
  feed_at h a i x lt = ground arith

  put_all-has :
      (bs : Bytes) (a : Offer) (i : ℕ)
      → put_all hello_parser_feed finished put at after n a i bs
        ≡ (a.0 || has method_no_auth bs, a.1 || has method_userpass bs)
  unfolding put has
  put_all-has [] a i = ground arith
  put_all-has (x ∷ bs) a i = ground (arith, put_all-has bs (put a i x) (suc i))

  start :
      record { state = hello_methods; remaining = n; has_noauth = false; has_userpass = false }
      ≡ at (false, false) 0
  unfolding at
  start = ground arith

  open_at : (a : Offer) (i : ℕ) → finished (at a i) ≡ false
  unfolding at
  open_at a i = refl

  run-methods :
      (bs : Bytes)
      → 0 < n
      → n < 256
      → outcome (run hello_parser_feed finished (at (false, false) 0) bs) ≡ methods (n ∷ bs)
  unfolding methods after
  run-methods bs pos' h =
      let e : n - 0 ≡ n = omega arith in
      elim (dec_le n (length bs)) [
        | yes k ↦ rw (
          run-collect hello_parser_feed finished put at after n (feed_at h) open_at bs
              (false, false) 0 pos' (omega arith),
          e,
          put_all-has (take n bs) (false, false) 0,
          le→leb n (length bs) k,
        )
        | no k ↦
            let short : leb n (length bs) ≡ false = ground arith in
            rw (
              run-collect_short hello_parser_feed finished put at after n (feed_at h) open_at bs
                  (false, false) 0 pos' (omega arith),
              short,
            )
      ]

-- The parser, started by `hello_parser_init` and fed any bytes, in one piece or in several, tells
-- its caller what the greeting at the head of those bytes is: it asks for more, refuses a version
-- other than 5, or returns the two flags and leaves the bytes behind the greeting unread.
pub hello_reads :
    (p : HelloParser) (bs : Bytes)
    → IsBytes bs
    → outcome (run hello_parser_feed finished (hello_parser_init p) bs) ≡ greeting bs
unfolding hello_parser_feed hello_parser_init greeting
hello_reads p [] h = refl
hello_reads p (v ∷ []) h = ground arith
hello_reads p (v ∷ zero ∷ bs) h = unfold has in ground arith
hello_reads p (v ∷ suc n ∷ bs) h = elim (Bool-cases (v == 0x05)) [
  | inl five ↦
      let some' : (suc n == 0) ≡ false = ground arith in
      rw (five, some')
        (ap (λ q. outcome (run hello_parser_feed finished q bs)) (start (suc n))
          ∙ run-methods (suc n) bs (omega arith) h.1.0)
  | inr other ↦ rw other
]
