-- ===== src/Parsers/Auth.antt =====
-- `struct auth_parser`: the username and password message of RFC 1929.
-- src/socks5_parsers.c, src/socks5_parsers.h.
pub mod Spec
use tpe2026c1_socks.Buffer.{Buffer}
use tpe2026c1_socks.Parsers.Run.{consume}
use tpe2026c1_socks.Prelude.{
  Bool, Bytes, Option, [], false, if◌then◌else◌, true, ℕ, ◌%◌, ◌+◌, ◌==◌, ◌∷◌,
}
use tpe2026c1_socks.Prelude.Memory.{splice}

pub data AuthState : Type 0 where
  auth_version auth_ulen auth_uname auth_plen auth_passwd auth_done auth_error : AuthState

-- `username` and `password` are the arrays, 256 bytes each.
pub record AuthParser : Type 0 where
  pub state : AuthState
  pub ulen : ℕ
  pub plen : ℕ
  pub idx : ℕ
  pub username : Bytes
  pub password : Bytes

unfoldable pub auth_parser_init : AuthParser → AuthParser
auth_parser_init p = record {
  state = auth_version;
  ulen = 0;
  plen = 0;
  idx = 0;
  username = splice p.username 0 (0 ∷ []);
  password = splice p.password 0 (0 ∷ []);
}

-- `idx++` on a `uint8_t`.
abbrev pub suc8 : ℕ → ℕ
suc8 n = (n + 1) % 256

-- `case AUTH_UNAME`
feed_uname : AuthParser → ℕ → AuthParser
feed_uname p b =
    let i = suc8 p.idx in
    let u = splice p.username p.idx (b ∷ []) in
    if i == p.ulen
    then record p { idx = i; username = splice u i (0 ∷ []); state = auth_plen }
    else record p { idx = i; username = u }

-- `case AUTH_PASSWD`
feed_passwd : AuthParser → ℕ → AuthParser
feed_passwd p b =
    let i = suc8 p.idx in
    let w = splice p.password p.idx (b ∷ []) in
    if i == p.plen
    then record p { idx = i; password = splice w i (0 ∷ []); state = auth_done }
    else record p { idx = i; password = w }

-- The switch of `auth_parser_feed`, on the state.
unfoldable pub feed_in : AuthState → AuthParser → ℕ → AuthParser
unfolding feed_uname feed_passwd
feed_in auth_version p b = record p { state = if b == 0x01 then auth_ulen else auth_error }
feed_in auth_ulen p b = record p {
  ulen = b;
  idx = 0;
  state = if b == 0 then auth_error else auth_uname;
}
feed_in auth_uname p b = feed_uname p b
feed_in auth_plen p b = record p {
  plen = b;
  idx = 0;
  state = if b == 0 then auth_error else auth_passwd;
}
feed_in auth_passwd p b = feed_passwd p b
feed_in auth_done p b = p
feed_in auth_error p b = p

unfoldable pub auth_parser_feed : AuthParser → ℕ → AuthParser
unfolding feed_in
auth_parser_feed p b = feed_in p.state p b

abbrev pub is_error : AuthState → Bool
is_error auth_error = true
is_error _ = false

abbrev pub is_finished : AuthState → Bool
is_finished auth_done = true
is_finished auth_error = true
is_finished _ = false

abbrev pub finished : AuthParser → Bool
finished p = is_finished p.state

abbrev pub failed : AuthParser → Bool
failed p = is_error p.state

unfoldable pub auth_parser_consume :
    AuthParser → Buffer → Bool → Option (Bool × AuthParser × Buffer × Bool)
unfolding consume auth_parser_feed
auth_parser_consume p buf error = consume auth_parser_feed finished failed p buf error
