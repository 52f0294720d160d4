-- ===== src/Parsers/Hello.antt =====
-- `struct hello_parser`: the greeting, in which the client offers its authentication methods.
-- src/socks5_parsers.c, src/socks5_parsers.h.
pub mod Spec
use tpe2026c1_socks.Parsers.Run.{run, consume}
use tpe2026c1_socks.Buffer.{Buffer}
use tpe2026c1_socks.Prelude.{Bool, Option, false, if◌then◌else◌, true, ℕ, ◌%◌, ◌+◌, ◌==◌}

abbrev pub method_no_auth : ℕ
method_no_auth = 0x00

abbrev pub method_userpass : ℕ
method_userpass = 0x02

abbrev pub method_none : ℕ
method_none = 0xFF

pub data HelloState : Type 0 where
  hello_version hello_nmethods hello_methods hello_done hello_error : HelloState

pub record HelloParser : Type 0 where
  pub state : HelloState
  pub remaining : ℕ
  pub has_noauth : Bool
  pub has_userpass : Bool

unfoldable pub hello_parser_init : HelloParser → HelloParser
hello_parser_init p = record {
  state = hello_version;
  remaining = 0;
  has_noauth = false;
  has_userpass = false;
}

-- `--p->remaining` on a `uint8_t`.
abbrev pub pred8 : ℕ → ℕ
pred8 n = (n + 255) % 256

-- The switch of `hello_parser_feed`, on the state.
unfoldable pub feed_in : HelloState → HelloParser → ℕ → HelloParser
feed_in hello_version p b = record p { state = if b == 0x05 then hello_nmethods else hello_error }
feed_in hello_nmethods p b = record p {
  remaining = b;
  state = if b == 0 then hello_done else hello_methods;
}
feed_in hello_methods p b = record p {
  state = if pred8 p.remaining == 0 then hello_done else p.state;
  remaining = pred8 p.remaining;
  has_noauth = if b == method_no_auth then true else p.has_noauth;
  has_userpass = if b == method_userpass then true else p.has_userpass;
}
feed_in hello_done p b = p
feed_in hello_error p b = p

unfoldable pub hello_parser_feed : HelloParser → ℕ → HelloParser
unfolding feed_in
hello_parser_feed p b = feed_in p.state p b

abbrev pub is_error : HelloState → Bool
is_error hello_error = true
is_error _ = false

abbrev pub is_finished : HelloState → Bool
is_finished hello_done = true
is_finished hello_error = true
is_finished _ = false

abbrev pub finished : HelloParser → Bool
finished p = is_finished p.state

abbrev pub failed : HelloParser → Bool
failed p = is_error p.state

unfoldable pub hello_parser_consume :
    HelloParser → Buffer → Bool → Option (Bool × HelloParser × Buffer × Bool)
unfolding consume hello_parser_feed
hello_parser_consume p buf error = consume hello_parser_feed finished failed p buf error
