-- ===== src/Parsers/Stream.antt =====
-- The three `consume` functions on a socket's stream: the message arrives over several reads, and a
-- call finds in the buffer what the last read brought.
use tpe2026c1_socks.Parsers.Hello
use tpe2026c1_socks.Parsers.Auth
use tpe2026c1_socks.Parsers.Request
use tpe2026c1_socks.Parsers.Run.{run, consume, consume_lem, run-append}
use tpe2026c1_socks.Buffer.{Buffer}
use tpe2026c1_socks.Buffer.Bounds.{IsValid}
use tpe2026c1_socks.Buffer.Queue.{contents}
use tpe2026c1_socks.Prelude.{
  Bool, Bytes, Option, false, some, ℕ, ◌&&◌, ◌++◌, ◌≡◌, IsBytes, ap, arith, if◌then◌else◌, length,
  true, ◌∙◌,
}
use tpe2026c1_socks.Parsers.Auth.{
  AuthParser, auth_parser_consume, auth_parser_feed, auth_parser_init,
}
use tpe2026c1_socks.Parsers.Auth.Spec.{auth_reads, credentials}
use tpe2026c1_socks.Parsers.Hello.{
  HelloParser, hello_parser_consume, hello_parser_feed, hello_parser_init,
}
use tpe2026c1_socks.Parsers.Hello.Spec.{greeting, hello_reads}
use tpe2026c1_socks.Parsers.Request.{
  RequestParser, request_parser_consume, request_parser_feed, request_parser_init,
}
use tpe2026c1_socks.Parsers.Request.Spec.{Request, request}
use tpe2026c1_socks.Parsers.Request.Sound.{request_reads}

-- What a call returns for a parser that read `xs` before and was left unfinished.
module _ {P : Type 0} (feed : P → ℕ → P) (finished : P → Bool) (failed : P → Bool) where
  abbrev pub Reads : P → Bytes → Buffer → Option (Bool × P × Buffer × Bool) → Type 0
  Reads start xs b result =
      (p : P) × (done : Bool) × (c : Buffer) × (result ≡ some (done, p, c, done && failed p))
      × ((p, contents c, done) ≡ run feed finished start (xs ++ contents b))
      × IsValid c

  pub consume-Reads :
      (start : P) (xs : Bytes) {b : Buffer}
      → IsValid b
      → (run feed finished start xs).2 ≡ false
      → Reads start xs b (consume feed finished failed (run feed finished start xs).0 b false)
  consume-Reads start xs {b} v open' =
      let p : P = (run feed finished start xs).0 in
      let (c, e, k) = consume_lem feed finished failed p false v in
      (
        (run feed finished p (contents b)).0,
        (run feed finished p (contents b)).2,
        c,
        e
            ∙ ap
                (λ t. some (
                  (run feed finished p (contents b)).2,
                  (run feed finished p (contents b)).0,
                  c,
                  t,
                ))
                (same (run feed finished p (contents b)).2
                  (failed (run feed finished p (contents b)).0)),
        rw (whole, k.holds),
        k.valid,
      )
    where
      same : (t f : Bool) → (if t then f else false) ≡ (t && f)
      same t f = ground arith

      whole :
          run feed finished start (xs ++ contents b)
          ≡ run feed finished (run feed finished start xs).0 (contents b)
      whole =
          run-append feed finished start xs (contents b)
          ∙ ap
              (λ t.
                if t
                then (
                  (run feed finished start xs).0,
                  (run feed finished start xs).1 ++ contents b,
                  true,
                )
                else run feed finished (run feed finished start xs).0 (contents b))
              open'

-- A call of `hello_parser_consume` by a parser that read `xs` in earlier calls and is not finished,
-- on a valid buffer: it does not abort, and the parser, the bytes that stay in the buffer and the
-- returned value tell what the greeting at the head of all the bytes received is; `*error` is set
-- exactly for a refusal.
pub hello_consume_reads :
    (p : Hello.HelloParser) (xs : Bytes) {b : Buffer}
    → IsValid b
    → IsBytes (xs ++ contents b)
    → (run Hello.hello_parser_feed Hello.finished (Hello.hello_parser_init p) xs).2 ≡ false
    → (q : Hello.HelloParser) × (done : Bool) × (c : Buffer) × (Hello.hello_parser_consume
          (run Hello.hello_parser_feed Hello.finished (Hello.hello_parser_init p) xs).0
          b
          false
        ≡ some (done, q, c, done && Hello.failed q))
      × (Hello.Spec.outcome (q, contents c, done) ≡ Hello.Spec.greeting (xs ++ contents b))
      × IsValid c
unfolding Hello.hello_parser_consume
hello_consume_reads p xs {b} v h open' =
    let (q, done, c, e, r, w) =
      consume-Reads Hello.hello_parser_feed Hello.finished Hello.failed (Hello.hello_parser_init p)
        xs v open' in
    (q, done, c, e, ap Hello.Spec.outcome r ∙ Hello.Spec.hello_reads p (xs ++ contents b) h, w)

-- A call of `auth_parser_consume` by a parser that read `xs` in earlier calls and is not finished,
-- with its two arrays of 256 bytes and a valid buffer: it does not abort, and the parser, the bytes
-- that stay in the buffer and the returned value tell what the username and password message at the
-- head of all the bytes received is; `*error` is set exactly for a refusal.
pub auth_consume_reads :
    (p : Auth.AuthParser) (xs : Bytes) {b : Buffer}
    → length p.username ≡ 256
    → length p.password ≡ 256
    → IsValid b
    → IsBytes (xs ++ contents b)
    → (run Auth.auth_parser_feed Auth.finished (Auth.auth_parser_init p) xs).2 ≡ false
    → (q : Auth.AuthParser) × (done : Bool) × (c : Buffer) × (Auth.auth_parser_consume
          (run Auth.auth_parser_feed Auth.finished (Auth.auth_parser_init p) xs).0
          b
          false
        ≡ some (done, q, c, done && Auth.failed q))
      × (Auth.Spec.outcome (q, contents c, done) ≡ Auth.Spec.credentials (xs ++ contents b))
      × IsValid c
unfolding Auth.auth_parser_consume
auth_consume_reads p xs {b} l k v h open' =
    let (q, done, c, e, r, w) =
      consume-Reads Auth.auth_parser_feed Auth.finished Auth.failed (Auth.auth_parser_init p) xs v
        open' in
    (q, done, c, e, ap Auth.Spec.outcome r ∙ Auth.Spec.auth_reads p (xs ++ contents b) l k h, w)

-- A call of `request_parser_consume` by a parser that read `xs` in earlier calls and is not
-- finished, with its array of 256 bytes and a valid buffer: it does not abort, and the parser, the
-- bytes that stay in the buffer and the returned value tell what the request at the head of all the
-- bytes received is; `*error` is set exactly for a refusal.
pub request_consume_reads :
    (p : Request.RequestParser) (xs : Bytes) {b : Buffer}
    → length p.addr ≡ 256
    → IsValid b
    → IsBytes (xs ++ contents b)
    → (run Request.request_parser_feed Request.finished (Request.request_parser_init p) xs).2
      ≡ false
    → (q : Request.RequestParser) × (done : Bool) × (c : Buffer) × (Request.request_parser_consume
          (run Request.request_parser_feed Request.finished (Request.request_parser_init p) xs).0
          b
          false
        ≡ some (done, q, c, done && Request.failed q))
      × (Request.Spec.outcome (q, contents c, done) ≡ Request.Spec.request (xs ++ contents b))
      × IsValid c
unfolding Request.request_parser_consume
request_consume_reads p xs {b} l v h open' =
    let (q, done, c, e, r, w) =
      consume-Reads Request.request_parser_feed Request.finished Request.failed
        (Request.request_parser_init p) xs v open' in
    (
      q,
      done,
      c,
      e,
      ap Request.Spec.outcome r ∙ Request.Sound.request_reads p (xs ++ contents b) l h,
      w,
    )
