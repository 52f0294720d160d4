-- ===== src/Parsers/Request/Fields.antt =====
-- The fields of the request in src/socks5_parsers.c, each on the bytes that are left.
use tpe2026c1_socks.Parsers.Request.{
  finished, is_finished, RequestParser, RequestState, atyp_domain, req_daddr_domain,
  req_daddr_domain_len, req_daddr_ipv4, req_daddr_ipv6, req_dport, request_parser_feed,
}
use tpe2026c1_socks.Parsers.Request.Spec.{
  outcome, target, Target, address_field, domain, domain_field, port_field,
}
use tpe2026c1_socks.Parsers.Collect.{Collects, put_all, run-collect, run-collect_short}
use tpe2026c1_socks.Parsers.Run.{run}
use tpe2026c1_socks.Prelude.{
  All-drop, Bool-cases, Bytes, IsByte, IsBytes, [], ap, arith, drop, false, inl, inr, leb, length,
  length-take, le→leb, refl, suc, sym, take, ℕ, ◌%◌, ◌*◌, ◌+◌, ◌-◌, ◌<◌, ◌==◌, ◌∙◌, ◌∷◌, ◌≡◌,
  dec_le,
}
use tpe2026c1_socks.Prelude.Memory.{splice, splice-nil, splice-splice, take-splice}
use tpe2026c1_socks.Prelude.Text.{c_string, c_string-splice}

pub run_dport :
    (q : RequestParser) (bs : Bytes)
    → IsBytes bs
    → q.port ≡ 0
    → outcome (run request_parser_feed finished (record q { state = req_dport; port_idx = 0 }) bs)
      ≡ port_field q.cmd (target q) bs
unfolding request_parser_feed port_field
run_dport q [] h z = refl
run_dport q (a ∷ []) h z = refl
run_dport q (a ∷ b ∷ r) h z =
    let whole : ((q.port * 256 + a) % 65536 * 256 + b) % 65536 ≡ a * 256 + b = omega arith in
    rw whole

unfoldable pub put : Bytes → ℕ → ℕ → Bytes
put a i x = splice a i (x ∷ [])

module _ (q : RequestParser) (s : RequestState) (n : ℕ) where
  unfoldable pub fixed_at : Bytes → ℕ → RequestParser
  fixed_at a i = record q { state = s; addr = a; idx = i }

  unfoldable pub fixed_after : Bytes → RequestParser
  fixed_after a = record q { state = req_dport; addr = a; idx = n; port_idx = 0 }

  fixed_put :
      (bs a : Bytes) (i : ℕ)
      → put_all request_parser_feed finished put fixed_at fixed_after n a i bs ≡ splice a i bs
  unfolding put
  fixed_put [] a i = sym (splice-nil a i)
  fixed_put (x ∷ bs) a i = fixed_put bs (put a i x) (suc i) ∙ splice-splice a i x bs

pub ipv4_step :
    (q : RequestParser)
    → Collects request_parser_feed finished put
        (fixed_at q req_daddr_ipv4 4)
        (fixed_after q req_daddr_ipv4 4)
        4
unfolding request_parser_feed put fixed_at fixed_after
ipv4_step q a i x lt = ground arith

pub ipv6_step :
    (q : RequestParser)
    → Collects request_parser_feed finished put
        (fixed_at q req_daddr_ipv6 16)
        (fixed_after q req_daddr_ipv6 16)
        16
unfolding request_parser_feed put fixed_at fixed_after
ipv6_step q a i x lt = ground arith

module _ (q : RequestParser) (n : ℕ) where
  domain_at : Bytes → ℕ → RequestParser
  domain_at a i = record q { state = req_daddr_domain; addr_len = n; addr = a; idx = i }

  domain_after : Bytes → RequestParser
  domain_after a = record q {
    state = req_dport;
    addr_len = n;
    addr = splice a n (0 ∷ []);
    idx = n;
    port_idx = 0;
  }

  domain_step : n < 256 → Collects request_parser_feed finished put domain_at domain_after n
  unfolding request_parser_feed put domain_at domain_after
  domain_step h a i x lt = ground arith

  domain_put :
      (bs a : Bytes) (i : ℕ)
      → put_all request_parser_feed finished put domain_at domain_after n a i bs ≡ splice a i bs
  unfolding put
  domain_put [] a i = sym (splice-nil a i)
  domain_put (x ∷ bs) a i = domain_put bs (put a i x) (suc i) ∙ splice-splice a i x bs

-- An address of a fixed length, then the port.
pub run_fixed :
    (q : RequestParser) (s : RequestState) (n : ℕ) (kind : Bytes → Target) (bs : Bytes)
    → Collects request_parser_feed finished put (fixed_at q s n) (fixed_after q s n) n
    → is_finished s ≡ false
    → ((a : Bytes) → target (fixed_after q s n a) ≡ kind (take n a))
    → IsBytes bs
    → q.port ≡ 0
    → length q.addr ≡ 256
    → 0 < n
    → n < 256
    → outcome (run request_parser_feed finished (record q { state = s; idx = 0 }) bs)
      ≡ address_field q.cmd kind n bs
unfolding address_field fixed_at fixed_after
run_fixed q s n kind bs step open' read h z l lo hi =
    let e : n - 0 ≡ n = omega arith in
    elim (dec_le n (length bs)) [
      | yes k ↦
          let a : Bytes =
            put_all request_parser_feed finished put (fixed_at q s n) (fixed_after q s n) n q.addr 0
              (take n bs) in
          let kept : take n a ≡ take n bs =
            rw (fixed_put q s n (take n bs) q.addr 0)
              (take-splice q.addr (take n bs) n (omega (arith, length-take n bs)) (omega arith)) in
          rw (
            run-collect request_parser_feed finished put (fixed_at q s n) (fixed_after q s n) n step
                (λ a i. open') bs q.addr 0 lo (omega arith),
            e,
            run_dport (fixed_after q s n a) (drop n bs) (All-drop IsByte n bs h) z,
            read a,
            kept,
            le→leb n (length bs) k,
          )
      | no k ↦
          let short : leb n (length bs) ≡ false = ground arith in
          rw (
            run-collect_short request_parser_feed finished put (fixed_at q s n) (fixed_after q s n)
                n step (λ a i. open') bs q.addr 0 lo (omega arith),
            short,
          )
    ]

-- A name with its length in front, then the port.
pub run_domain :
    (q : RequestParser) (bs : Bytes)
    → IsBytes bs
    → q.port ≡ 0
    → length q.addr ≡ 256
    → q.atyp ≡ atyp_domain
    → outcome (run request_parser_feed finished (record q { state = req_daddr_domain_len }) bs)
      ≡ domain_field q.cmd bs
unfolding request_parser_feed domain_field address_field domain_at domain_after
run_domain q [] h z l t = refl
run_domain q (n ∷ r) h z l t = elim (Bool-cases (n == 0)) [
  | inl none_left ↦ rw none_left
  | inr some_left ↦
      let e : n - 0 ≡ n = omega arith in
      let nz : 0 < n = ground arith in
      elim (dec_le n (length r)) [
        | yes k ↦
            let whole : n ≡ length (take n r) = omega (arith, length-take n r) in
            let after : RequestParser = domain_after q n (
              put_all request_parser_feed finished put (domain_at q n) (domain_after q n) n q.addr 0
                (take n r)) in
            let name : target after ≡ domain (c_string (take n r)) =
              rw (t, domain_put q n (take n r) q.addr 0)
                (ap domain (c_string-splice q.addr (take n r) n whole (rw l h.0))) in
            rw (
              some_left,
              run-collect request_parser_feed finished put (domain_at q n) (domain_after q n) n
                  (domain_step q n h.0) (λ a i. refl) r q.addr 0 nz (omega arith),
              e,
              run_dport after (drop n r) (All-drop IsByte n r h.1) z,
              name,
              le→leb n (length r) k,
            )
        | no k ↦
            let short : leb n (length r) ≡ false = ground arith in
            rw (
              some_left,
              run-collect_short request_parser_feed finished put (domain_at q n) (domain_after q n)
                  n (domain_step q n h.0) (λ a i. refl) r q.addr 0 nz (omega arith),
              short,
            )
      ]
]
