-- ===== src/Parsers/Tests.antt =====
-- The parsers of src/socks5_parsers.c on messages that arrive in two reads.
use tpe2026c1_socks.Parsers.Hello
use tpe2026c1_socks.Parsers.Auth
use tpe2026c1_socks.Parsers.Request
use tpe2026c1_socks.Parsers.Run.{run, complete}
use tpe2026c1_socks.Buffer.Bounds.{IsValid}
use tpe2026c1_socks.Buffer.{Buffer}
use tpe2026c1_socks.Buffer.Queue.{contents}
use tpe2026c1_socks.Parsers.Auth.{
  AuthParser, auth_done, auth_parser_consume, auth_parser_feed, auth_parser_init,
}
use tpe2026c1_socks.Parsers.Auth.Spec.{credentials}
use tpe2026c1_socks.Parsers.Hello.{
  HelloParser, hello_done, hello_parser_consume, hello_parser_feed, hello_parser_init,
}
use tpe2026c1_socks.Parsers.Hello.Spec.{greeting}
use tpe2026c1_socks.Parsers.Request.{
  RequestParser, req_done, request_parser_consume, request_parser_feed, request_parser_init,
}
use tpe2026c1_socks.Parsers.Request.Spec.{Request, request}
use tpe2026c1_socks.Parsers.Stream.{auth_consume_reads, hello_consume_reads, request_consume_reads}
use tpe2026c1_socks.Prelude.{
  Bool, Bytes, [], arith, false, length-replicate, refl, replicate, some, true, ℕ, ◌&&◌, ◌++◌, ◌∷◌,
  ◌≡◌, has,
}

-- A buffer with the four bytes `a` to `d` to be read.
abbrev four : ℕ → ℕ → ℕ → ℕ → Buffer
four a b c d = record { storage = a ∷ b ∷ c ∷ d ∷ []; limit = 4; read = 0; write = 4 }

four-IsValid : (a b c d : ℕ) → IsValid (four a b c d)
four-IsValid a b c d = omega arith

-- The version in the first read; two methods, the second of them 2, and a byte behind.
abbrev hello_start : Hello.HelloParser
hello_start = record {
  state = Hello.hello_done;
  remaining = 9;
  has_noauth = true;
  has_userpass = true;
}

greeting_offer : Hello.Spec.greeting (5 ∷ 2 ∷ 1 ∷ 2 ∷ 77 ∷ []) ≡ complete (false, true) (77 ∷ [])
unfolding Hello.Spec.greeting has
greeting_offer = refl

abbrev hello_mid : Hello.HelloParser
hello_mid =
    (run Hello.hello_parser_feed Hello.finished (Hello.hello_parser_init hello_start) (5 ∷ [])).0

hello_consume_reads_example :
    (q : Hello.HelloParser) × (done : Bool) × (c : Buffer) × (Hello.hello_parser_consume hello_mid
        (four 2 1 2 77)
        false
      ≡ some (done, q, c, done && Hello.failed q))
    × (Hello.Spec.outcome (q, contents c, done) ≡ Hello.Spec.greeting (5 ∷ 2 ∷ 1 ∷ 2 ∷ 77 ∷ []))
    × IsValid c
unfolding Hello.hello_parser_feed Hello.hello_parser_init
hello_consume_reads_example =
    hello_consume_reads hello_start (5 ∷ []) (four-IsValid 2 1 2 77) (omega arith) refl

abbrev auth_start : Auth.AuthParser
auth_start = record {
  state = Auth.auth_done;
  ulen = 0;
  plen = 0;
  idx = 0;
  username = replicate 256 0;
  password = replicate 256 0;
}

abbrev auth_mid : Auth.AuthParser
auth_mid = (run Auth.auth_parser_feed Auth.finished (Auth.auth_parser_init auth_start) (1 ∷ [])).0

auth_consume_reads_example :
    (q : Auth.AuthParser) × (done : Bool) × (c : Buffer) × (Auth.auth_parser_consume auth_mid
        (four 1 97 1 98)
        false
      ≡ some (done, q, c, done && Auth.failed q))
    × (Auth.Spec.outcome (q, contents c, done) ≡ Auth.Spec.credentials (1 ∷ 1 ∷ 97 ∷ 1 ∷ 98 ∷ []))
    × IsValid c
unfolding Auth.auth_parser_feed Auth.auth_parser_init
auth_consume_reads_example =
    auth_consume_reads auth_start (1 ∷ []) (length-replicate {A = ℕ} 256 0)
      (length-replicate {A = ℕ} 256 0) (four-IsValid 1 97 1 98) (omega arith) refl

abbrev request_start : Request.RequestParser
request_start = record {
  state = Request.req_done;
  cmd = 0;
  atyp = 0;
  addr_len = 0;
  idx = 0;
  addr = replicate 256 0;
  port = 0;
  port_idx = 0;
}

-- CONNECT to a domain name of one byte, whose port comes with the second read.
abbrev request_head : Bytes
request_head = 5 ∷ 1 ∷ 0 ∷ 3 ∷ []

abbrev request_mid : Request.RequestParser
request_mid =
    (run Request.request_parser_feed Request.finished (Request.request_parser_init request_start)
      request_head).0

request_consume_reads_example :
    (q : Request.RequestParser) × (done : Bool) × (c : Buffer) × (Request.request_parser_consume
        request_mid
        (four 1 120 0 80)
        false
      ≡ some (done, q, c, done && Request.failed q))
    × (Request.Spec.outcome (q, contents c, done)
        ≡ Request.Spec.request (request_head ++ 1 ∷ 120 ∷ 0 ∷ 80 ∷ []))
    × IsValid c
unfolding Request.request_parser_feed Request.request_parser_init
request_consume_reads_example =
    request_consume_reads request_start request_head (length-replicate {A = ℕ} 256 0)
      (four-IsValid 1 120 0 80) (omega arith) refl
