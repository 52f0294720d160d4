-- ===== src/Parsers/Auth/Spec.antt =====
-- The message of RFC 1929 read at once from the bytes received so far, and the parser against it.
use tpe2026c1_socks.Parsers.Auth.{
  finished, failed, AuthParser, auth_done, auth_parser_feed, auth_passwd, auth_plen, auth_uname,
  auth_parser_init, auth_ulen,
}
use tpe2026c1_socks.Parsers.Collect.{Collects, put_all, run-collect, run-collect_short}
use tpe2026c1_socks.Parsers.Run.{Outcome, bad, complete, more, run}
use tpe2026c1_socks.Prelude.{
  Bool, Bytes, [], arith, drop, if◌then◌else◌, leb, length, suc, sym, take, ℕ, ◌<◌, ◌==◌, ◌∙◌, ◌∷◌,
  ◌≡◌, All-drop, Bool-cases, IsByte, IsBytes, false, inl, inr, length-take, le→leb, refl, ◌-◌,
  dec_le,
}
use tpe2026c1_socks.Prelude.Memory.{splice, splice-nil, splice-splice, length-splice}
use tpe2026c1_socks.Prelude.Text.{c_string, c_string-splice}

-- The username and the password, as the C strings that the server compares.
abbrev pub Login : Type 0
Login = Bytes × Bytes

-- PLEN and PASSWD, behind the username `u`.
pub passwd_field : Bytes → Bytes → Outcome Login
passwd_field u [] = more
passwd_field u (m ∷ r) =
    if m == 0
    then bad r
    else if leb m (length r)
    then complete (u, c_string (take m r)) (drop m r)
    else more

-- ULEN and UNAME.
pub uname_field : Bytes → Outcome Login
uname_field [] = more
uname_field (n ∷ r) =
    if n == 0
    then bad r
    else if leb n (length r)
    then passwd_field (c_string (take n r)) (drop n r)
    else more

unfoldable pub credentials : Bytes → Outcome Login
unfolding uname_field passwd_field
credentials [] = more
credentials (v ∷ r) = if v == 0x01 then uname_field r else bad r

-- What a run of the parser tells its caller.
abbrev pub outcome : AuthParser × Bytes × Bool → Outcome Login
outcome (p, rest, done) =
    if done
    then (if failed p then bad rest else complete (c_string p.username, c_string p.password) rest)
    else more

put : Bytes → ℕ → ℕ → Bytes
put a i x = splice a i (x ∷ [])

module _ (q : AuthParser) (n : ℕ) where
  uname_at : Bytes → ℕ → AuthParser
  uname_at a i = record q { state = auth_uname; ulen = n; idx = i; username = a }

  uname_after : Bytes → AuthParser
  uname_after a = record q { state = auth_plen; ulen = n; idx = n; username = splice a n (0 ∷ []) }

  uname_step : n < 256 → Collects auth_parser_feed finished put uname_at uname_after n
  unfolding auth_parser_feed put uname_at uname_after
  uname_step h a i x lt = ground arith

  uname_put :
      (bs a : Bytes) (i : ℕ)
      → put_all auth_parser_feed finished put uname_at uname_after n a i bs ≡ splice a i bs
  unfolding put
  uname_put [] a i = sym (splice-nil a i)
  uname_put (x ∷ bs) a i = uname_put bs (put a i x) (suc i) ∙ splice-splice a i x bs

  passwd_at : Bytes → ℕ → AuthParser
  passwd_at a i = record q { state = auth_passwd; plen = n; idx = i; password = a }

  passwd_after : Bytes → AuthParser
  passwd_after a = record q { state = auth_done; plen = n; idx = n; password = splice a n (0 ∷ []) }

  passwd_step : n < 256 → Collects auth_parser_feed finished put passwd_at passwd_after n
  unfolding auth_parser_feed put passwd_at passwd_after
  passwd_step h a i x lt = ground arith

  passwd_put :
      (bs a : Bytes) (i : ℕ)
      → put_all auth_parser_feed finished put passwd_at passwd_after n a i bs ≡ splice a i bs
  unfolding put
  passwd_put [] a i = sym (splice-nil a i)
  passwd_put (x ∷ bs) a i = passwd_put bs (put a i x) (suc i) ∙ splice-splice a i x bs

run_passwd :
    (q : AuthParser) (bs : Bytes)
    → IsBytes bs
    → length q.password ≡ 256
    → outcome (run auth_parser_feed finished (record q { state = auth_plen }) bs)
      ≡ passwd_field (c_string q.username) bs
unfolding auth_parser_feed passwd_field passwd_at passwd_after
run_passwd q [] h l = refl
run_passwd q (m ∷ r) h l = elim (Bool-cases (m == 0)) [
  | inl none_left ↦ rw none_left
  | inr some_left ↦
      let e : m - 0 ≡ m = omega arith in
      let nz : 0 < m = ground arith in
      elim (dec_le m (length r)) [
        | yes k ↦
            let whole : m ≡ length (take m r) = omega (arith, length-take m r) in
            rw (
              some_left,
              run-collect auth_parser_feed finished put (passwd_at q m) (passwd_after q m) m
                  (passwd_step q m h.0) (λ a i. refl) r q.password 0 nz (omega arith),
              e,
              passwd_put q m (take m r) q.password 0,
              c_string-splice q.password (take m r) m whole (rw l h.0),
              le→leb m (length r) k,
            )
        | no k ↦
            let short : leb m (length r) ≡ false = ground arith in
            rw (
              some_left,
              run-collect_short auth_parser_feed finished put (passwd_at q m) (passwd_after q m) m
                  (passwd_step q m h.0) (λ a i. refl) r q.password 0 nz (omega arith),
              short,
            )
      ]
]

run_uname :
    (q : AuthParser) (bs : Bytes)
    → IsBytes bs
    → length q.username ≡ 256
    → length q.password ≡ 256
    → outcome (run auth_parser_feed finished (record q { state = auth_ulen }) bs) ≡ uname_field bs
unfolding auth_parser_feed uname_field uname_at uname_after
run_uname q [] h l k = refl
run_uname q (n ∷ r) h l lp = elim (Bool-cases (n == 0)) [
  | inl none_left ↦ rw none_left
  | inr some_left ↦
      let e : n - 0 ≡ n = omega arith in
      let nz : 0 < n = ground arith in
      elim (dec_le n (length r)) [
        | yes k ↦
            let whole : n ≡ length (take n r) = omega (arith, length-take n r) in
            let named : AuthParser = uname_after q n (
              put_all auth_parser_feed finished put (uname_at q n) (uname_after q n) n q.username 0
                (take n r)) in
            let name : c_string named.username ≡ c_string (take n r) =
              rw (uname_put q n (take n r) q.username 0)
                (c_string-splice q.username (take n r) n whole (rw l h.0)) in
            rw (
              some_left,
              run-collect auth_parser_feed finished put (uname_at q n) (uname_after q n) n
                  (uname_step q n h.0) (λ a i. refl) r q.username 0 nz (omega arith),
              e,
              run_passwd named (drop n r) (All-drop IsByte n r h.1) lp,
              name,
              le→leb n (length r) k,
            )
        | no k ↦
            let short : leb n (length r) ≡ false = ground arith in
            rw (
              some_left,
              run-collect_short auth_parser_feed finished put (uname_at q n) (uname_after q n) n
                  (uname_step q n h.0) (λ a i. refl) r q.username 0 nz (omega arith),
              short,
            )
      ]
]

-- The parser, started by `auth_parser_init` on arrays of 256 bytes and fed any bytes, in one piece
-- or in several, tells its caller what the message at the head of those bytes is: it asks for more,
-- refuses a version other than 1 or an empty field, or returns the username and the password that
-- the server will compare and leaves the bytes behind the message unread.
pub auth_reads :
    (p : AuthParser) (bs : Bytes)
    → length p.username ≡ 256
    → length p.password ≡ 256
    → IsBytes bs
    → outcome (run auth_parser_feed finished (auth_parser_init p) bs) ≡ credentials bs
unfolding auth_parser_feed auth_parser_init credentials
auth_reads p [] l k h = refl
auth_reads p (v ∷ bs) l k h = elim (Bool-cases (v == 0x01)) [
  | inl one ↦ rw one (
      run_uname (auth_parser_init p) bs h.1 (length-splice p.username 0 (0 ∷ []) ∙ l)
        (length-splice p.password 0 (0 ∷ []) ∙ k))
  | inr other ↦ rw other
]
