-- ===== src/Parsers/Request.antt =====
-- `struct request_parser`: the request, in which the client names a command and a destination.
-- src/socks5_parsers.c, src/socks5_parsers.h.
pub mod Spec
pub mod Fields
pub mod Sound
use tpe2026c1_socks.Buffer.{Buffer}
use tpe2026c1_socks.Parsers.Run.{consume}
use tpe2026c1_socks.Prelude.{
  Bool, Bytes, Option, [], false, if◌then◌else◌, true, ℕ, ◌%◌, ◌*◌, ◌+◌, ◌==◌, ◌∷◌,
}
use tpe2026c1_socks.Prelude.Memory.{splice}

abbrev pub cmd_connect : ℕ
cmd_connect = 0x01

abbrev pub atyp_ipv4 : ℕ
atyp_ipv4 = 0x01

abbrev pub atyp_domain : ℕ
atyp_domain = 0x03

abbrev pub atyp_ipv6 : ℕ
atyp_ipv6 = 0x04

pub data RequestState : Type 0 where
  req_version req_cmd req_rsv req_atyp req_daddr_ipv4 req_daddr_domain_len : RequestState
  req_daddr_domain req_daddr_ipv6 req_dport req_done req_error : RequestState

-- `addr` is the array, 256 bytes.
pub record RequestParser : Type 0 where
  pub state : RequestState
  pub cmd : ℕ
  pub atyp : ℕ
  pub addr_len : ℕ
  pub idx : ℕ
  pub addr : Bytes
  pub port : ℕ
  pub port_idx : ℕ

unfoldable pub request_parser_init : RequestParser → RequestParser
request_parser_init p = record p {
  state = req_version;
  cmd = 0;
  atyp = 0;
  addr_len = 0;
  idx = 0;
  port = 0;
  port_idx = 0;
}

abbrev pub suc8 : ℕ → ℕ
suc8 n = (n + 1) % 256

-- `case REQ_ATYP`
feed_atyp : RequestParser → ℕ → RequestParser
feed_atyp p b =
    let q = record p { atyp = b; idx = 0 } in
    if b == atyp_ipv4
    then record q { addr_len = 4; state = req_daddr_ipv4 }
    else if b == atyp_ipv6
    then record q { addr_len = 16; state = req_daddr_ipv6 }
    else if b == atyp_domain
    then record q { state = req_daddr_domain_len }
    else record q { state = req_error }

-- `case REQ_DADDR_IPV4` and `case REQ_DADDR_IPV6`, up to the length
feed_fixed : ℕ → RequestParser → ℕ → RequestParser
feed_fixed n p b =
    let i = suc8 p.idx in
    let q = record p { addr = splice p.addr p.idx (b ∷ []); idx = i } in
    if i == n then record q { port_idx = 0; state = req_dport } else q

-- `case REQ_DADDR_DOMAIN`
feed_domain : RequestParser → ℕ → RequestParser
feed_domain p b =
    let i = suc8 p.idx in
    let a = splice p.addr p.idx (b ∷ []) in
    if i == p.addr_len
    then record p { addr = splice a i (0 ∷ []); idx = i; port_idx = 0; state = req_dport }
    else record p { addr = a; idx = i }

-- `case REQ_DPORT`. The low eight bits of `port << 8` are clear, so `|` is a sum.
feed_dport : RequestParser → ℕ → RequestParser
feed_dport p b =
    let i = suc8 p.port_idx in
    record p {
      port = (p.port * 256 + b) % 65536;
      port_idx = i;
      state = if i == 2 then req_done else p.state;
    }

-- The switch of `request_parser_feed`, on the state.
unfoldable pub feed_in : RequestState → RequestParser → ℕ → RequestParser
unfolding feed_atyp feed_fixed feed_domain feed_dport
feed_in req_version p b = record p { state = if b == 0x05 then req_cmd else req_error }
feed_in req_cmd p b = record p { cmd = b; state = req_rsv }
feed_in req_rsv p b = record p { state = if b == 0x00 then req_atyp else req_error }
feed_in req_atyp p b = feed_atyp p b
feed_in req_daddr_ipv4 p b = feed_fixed 4 p b
feed_in req_daddr_domain_len p b = record p {
  addr_len = b;
  idx = 0;
  state = if b == 0 then req_error else req_daddr_domain;
}
feed_in req_daddr_domain p b = feed_domain p b
feed_in req_daddr_ipv6 p b = feed_fixed 16 p b
feed_in req_dport p b = feed_dport p b
feed_in req_done p b = p
feed_in req_error p b = p

unfoldable pub request_parser_feed : RequestParser → ℕ → RequestParser
unfolding feed_in
request_parser_feed p b = feed_in p.state p b

abbrev pub is_error : RequestState → Bool
is_error req_error = true
is_error _ = false

abbrev pub is_finished : RequestState → Bool
is_finished req_done = true
is_finished req_error = true
is_finished _ = false

abbrev pub finished : RequestParser → Bool
finished p = is_finished p.state

abbrev pub failed : RequestParser → Bool
failed p = is_error p.state

unfoldable pub request_parser_consume :
    RequestParser → Buffer → Bool → Option (Bool × RequestParser × Buffer × Bool)
unfolding consume request_parser_feed
request_parser_consume p buf error = consume request_parser_feed finished failed p buf error
