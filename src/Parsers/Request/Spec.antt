-- ===== src/Parsers/Request/Spec.antt =====
-- The request as RFC 1928 lays it out, read at once from the bytes received so far, and what the
-- parser of src/socks5_parsers.c tells its caller.
use tpe2026c1_socks.Parsers.Request.{failed, RequestParser, atyp_domain, atyp_ipv4, atyp_ipv6}
use tpe2026c1_socks.Parsers.Run.{Outcome, bad, complete, more}
use tpe2026c1_socks.Prelude.{
  Bool, Bytes, [], drop, if◌then◌else◌, leb, length, take, ℕ, ◌*◌, ◌+◌, ◌==◌, ◌∷◌,
}
use tpe2026c1_socks.Prelude.Text.{c_string}

-- A destination: the bytes of an address, or a name as a C string.
pub data Target : Type 0 where
  ipv4 : Bytes → Target
  ipv6 : Bytes → Target
  domain : Bytes → Target

-- The command, the destination and the port.
abbrev pub Request : Type 0
Request = ℕ × Target × ℕ

unfoldable pub port_field : ℕ → Target → Bytes → Outcome Request
port_field c t (a ∷ b ∷ r) = complete (c, t, a * 256 + b) r
port_field c t _ = more

-- An address of `n` bytes.
unfoldable pub address_field : ℕ → (Bytes → Target) → ℕ → Bytes → Outcome Request
address_field c kind n r =
    if leb n (length r) then port_field c (kind (take n r)) (drop n r) else more

unfoldable pub domain_field : ℕ → Bytes → Outcome Request
domain_field c [] = more
domain_field c (n ∷ r) = if n == 0 then bad r else address_field c (λ d. domain (c_string d)) n r

unfoldable pub target_field : ℕ → Bytes → Outcome Request
target_field c [] = more
target_field c (t ∷ r) =
    if t == atyp_ipv4
    then address_field c ipv4 4 r
    else if t == atyp_ipv6
    then address_field c ipv6 16 r
    else if t == atyp_domain
    then domain_field c r
    else bad r

pub reserved_field : ℕ → Bytes → Outcome Request
reserved_field c [] = more
reserved_field c (z ∷ r) = if z == 0x00 then target_field c r else bad r

pub command_field : Bytes → Outcome Request
command_field [] = more
command_field (c ∷ r) = reserved_field c r

unfoldable pub request : Bytes → Outcome Request
unfolding command_field reserved_field target_field domain_field address_field port_field
request [] = more
request (v ∷ r) = if v == 0x05 then command_field r else bad r

-- The destination that the parser holds, by the type that it has read.
abbrev pub target : RequestParser → Target
target p =
    if p.atyp == atyp_ipv4
    then ipv4 (take 4 p.addr)
    else if p.atyp == atyp_ipv6
    then ipv6 (take 16 p.addr)
    else domain (c_string p.addr)

-- What a run of the parser tells its caller.
abbrev pub outcome : RequestParser × Bytes × Bool → Outcome Request
outcome (p, rest, done) =
    if done then (if failed p then bad rest else complete (p.cmd, target p, p.port) rest) else more
