-- ===== src/Parsers/Request/Sound.antt =====
-- The parser of the request in src/socks5_parsers.c against the layout of the request.
use tpe2026c1_socks.Parsers.Request.{
  finished, RequestParser, atyp_domain, atyp_ipv4, atyp_ipv6, req_atyp, req_daddr_ipv4,
  req_daddr_ipv6, request_parser_feed, request_parser_init,
}
use tpe2026c1_socks.Parsers.Request.Spec.{outcome, request, ipv4, ipv6, target_field}
use tpe2026c1_socks.Parsers.Request.Fields.{
  fixed_after, ipv4_step, ipv6_step, run_domain, run_fixed,
}
use tpe2026c1_socks.Parsers.Run.{run}
use tpe2026c1_socks.Prelude.{
  ==_iff, Bool-cases, Bytes, IsBytes, [], arith, inl, inr, length, refl, ◌==◌, ◌∷◌, ◌≡◌,
}

run_target :
    (q : RequestParser) (bs : Bytes)
    → IsBytes bs
    → q.port ≡ 0
    → length q.addr ≡ 256
    → outcome (run request_parser_feed finished (record q { state = req_atyp }) bs)
      ≡ target_field q.cmd bs
unfolding request_parser_feed target_field
run_target q [] h z l = refl
run_target q (t ∷ r) h z l = elim (Bool-cases (t == atyp_ipv4)) [
  | inl four ↦
      let p : RequestParser = record q { atyp = t; addr_len = 4 } in
      rw four (
        run_fixed p req_daddr_ipv4 4 ipv4 r (ipv4_step p) refl (λ a. unfold fixed_after in rw four)
          h.1 z l (omega arith) (omega arith))
  | inr not_four ↦ elim (Bool-cases (t == atyp_ipv6)) [
    | inl six ↦
        let p : RequestParser = record q { atyp = t; addr_len = 16 } in
        rw (not_four, six)
          (run_fixed p req_daddr_ipv6 16 ipv6 r (ipv6_step p) refl
            (λ a. unfold fixed_after in rw (not_four, six)) h.1 z l (omega arith) (omega arith))
    | inr not_six ↦ elim (Bool-cases (t == atyp_domain)) [
      | inl name ↦
          let p : RequestParser = record q { atyp = t; idx = 0 } in
          rw (not_four, not_six, name) (run_domain p r h.1 z l ((==_iff t atyp_domain).0 name))
      | inr not_name ↦ rw (not_four, not_six, not_name)
    ]
  ]
]

-- The parser, started by `request_parser_init` on an array of 256 bytes and fed any bytes, in one
-- piece or in several, tells its caller what the request at the head of those bytes is: it asks for
-- more, refuses a bad version, reserved byte or address type or an empty name, or returns the
-- command, the destination and the port and leaves the bytes behind the request unread.
pub request_reads :
    (p : RequestParser) (bs : Bytes)
    → length p.addr ≡ 256
    → IsBytes bs
    → outcome (run request_parser_feed finished (request_parser_init p) bs) ≡ request bs
unfolding request_parser_feed request_parser_init request
request_reads p [] l h = refl
request_reads p (v ∷ []) l h = ground arith
request_reads p (v ∷ c ∷ []) l h = ground arith
request_reads p (v ∷ c ∷ z ∷ bs) l h = elim (Bool-cases (v == 0x05)) [
  | inl five ↦ elim (Bool-cases (z == 0x00)) [
    | inl zeroed ↦
        rw (five, zeroed)
          (run_target (record (request_parser_init p) { cmd = c }) bs h.1.1.1 refl l)
    | inr other ↦ rw (five, other)
  ]
  | inr other ↦ rw other
]
