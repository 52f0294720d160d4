-- ===== src/Args.antt =====
-- src/args.c and src/args.h: the command line of the server. `getopt` is the library's: what it
-- returns is a list of options with their arguments, and the words that are left. An array of
-- characters is the C string that it holds. A call of `exit` ends the parse.
use mathlib.Core.Option
use tpe2026c1_socks.Users.{users_max, users_max_name, users_max_pass}
pub mod Split
pub mod Parsed
mod Tests
use tpe2026c1_socks.Prelude.{
  if◌then◌else◌, Bool, Bytes, List, Option, [], false, leb, length, ltb, none, not, some, take,
  true, ℕ, ◌&&◌, ◌*◌, ◌++◌, ◌+◌, ◌-◌, ◌==◌, ◌>>=◌, ◌||◌, ◌∷◌,
}
use tpe2026c1_socks.Config.{admin}

pub record ArgsUser : Type 0 where
  pub name : Bytes
  pub pass : Bytes

-- `struct socks5args`; `users` holds the `nusers` users.
pub record Socks5Args : Type 0 where
  pub socks_addr : Bytes
  pub socks_port : ℕ
  pub mgmt_addr : Bytes
  pub mgmt_port : ℕ
  pub admin_user : Bytes
  pub admin_pass : Bytes
  pub require_auth : Bool
  pub pop3_sniff : Bool
  pub users : List ArgsUser

-- `strchr(arg, ':')`: what stands before the first colon, and behind it.
unfoldable pub at_colon : Bytes → Option (Bytes × Bytes)
at_colon [] = none
at_colon (c ∷ cs) =
    let rest = at_colon cs in
    if c == b':' then some ([], cs) else Option.map (λ t. (c ∷ t.0, t.1)) rest

unfoldable pub split_userpass : Bytes → ℕ → ℕ → Option (Bytes × Bytes)
unfolding at_colon
split_userpass arg ulen plen = do
  (user, pass) ← at_colon arg
  if length user == 0
      then none
      else if leb ulen (length user) || length pass == 0 || leb plen (length pass)
      then none
      else some (user, pass)

-- `isspace` of the C locale.
abbrev pub isspace : ℕ → Bool
isspace c = c == b' ' || (leb 9 c && leb c 13)

unfoldable pub skip_space : Bytes → Bytes
skip_space [] = []
skip_space (c ∷ cs) = let rest = skip_space cs in if isspace c then rest else c ∷ cs

abbrev pub isdigit : ℕ → Bool
isdigit c = leb b'0' c && leb c b'9'

-- The digits of `strtol`, with the value `v` read before, and the text behind them.
unfoldable pub digits : ℕ → Bytes → ℕ × Bytes
digits v [] = (v, [])
digits v (c ∷ cs) =
    let rest = digits (v * 10 + (c - b'0')) cs in if isdigit c then rest else (v, c ∷ cs)

-- Whether a text begins with a digit.
abbrev pub has_digit : Bytes → Bool
has_digit [] = false
has_digit (c ∷ cs) = isdigit c

-- A sign before the digits, and whether it is a minus.
abbrev pub sign : Bytes → Bool × Bytes
sign [] = (false, [])
sign (c ∷ cs) = if c == b'-' then (true, cs) else if c == b'+' then (false, cs) else (false, c ∷ cs)

-- `strtol(s, &end, 10)` and the tests on its results; `none` is `exit(1)`. A value that strtol
-- would saturate is above 65535 here as well.
unfoldable pub parse_port : Bytes → Option ℕ
unfolding skip_space digits
parse_port s =
    let (minus, t) = sign (skip_space s) in
    let (v, end) = digits 0 t in
    if not (has_digit t) || not (length end == 0) || minus || ltb v 1 || ltb 65535 v
    then none
    else some v

-- What `getopt` returns; `opt_error` is every other character.
pub data Opt : Type 0 where
  opt_h opt_v opt_n opt_d opt_error : Opt
  opt_l opt_p opt_big_l opt_big_p opt_u opt_a : Bytes → Opt

-- How `args_parse` ends.
pub data ArgsResult : Type 0 where
  exits : ℕ → ArgsResult
  parsed : Socks5Args → ArgsResult

abbrev pub addr_size : ℕ
addr_size = 64

abbrev pub or_exit {ℓ} : {A : Type ℓ} → Option A → (A → ArgsResult) → ArgsResult
or_exit none f = exits 1
or_exit (some a) f = f a

abbrev pub default_host : Bytes
default_host = b'1' ∷ b'2' ∷ b'7' ∷ b'.' ∷ b'0' ∷ b'.' ∷ b'0' ∷ b'.' ∷ b'1' ∷ []

unfoldable pub defaults : Socks5Args
defaults = record {
  socks_addr = [];
  socks_port = 1080;
  mgmt_addr = default_host;
  mgmt_port = 8080;
  admin_user = admin;
  admin_pass = admin;
  require_auth = false;
  pop3_sniff = false;
  users = [];
}

-- The switch of `args_parse`.
unfoldable pub apply_opt : Socks5Args → Opt → ArgsResult
apply_opt a opt_h = exits 0
apply_opt a opt_v = exits 0
apply_opt a (opt_l s) = parsed (record a { socks_addr = take (addr_size - 1) s })
apply_opt a (opt_p s) = or_exit (parse_port s) (λ n. parsed (record a { socks_port = n }))
apply_opt a (opt_big_l s) = parsed (record a { mgmt_addr = take (addr_size - 1) s })
apply_opt a (opt_big_p s) = or_exit (parse_port s) (λ n. parsed (record a { mgmt_port = n }))
apply_opt a (opt_u s) =
    if leb users_max (length a.users)
    then exits 1
    else or_exit (split_userpass s (users_max_name + 1) (users_max_pass + 1))
        (λ t. parsed (record a { users = a.users ++ record { name = t.0; pass = t.1 } ∷ [] }))
apply_opt a (opt_a s) =
    or_exit (split_userpass s (users_max_name + 1) (users_max_pass + 1))
      (λ t. parsed (record a { admin_user = t.0; admin_pass = t.1 }))
apply_opt a opt_n = parsed (record a { require_auth = true })
apply_opt a opt_d = parsed (record a { pop3_sniff = true })
apply_opt a opt_error = exits 1

-- The next round of the loop, unless the switch has called `exit`.
abbrev pub go_on : ArgsResult → (Socks5Args → ArgsResult) → ArgsResult
go_on (exits n) f = exits n
go_on (parsed a) f = f a

-- The loop, and the test on the words that are left.
unfoldable pub parse_from : Socks5Args → List Opt → ℕ → ArgsResult
unfolding apply_opt
parse_from a [] left = if ltb 0 left then exits 1 else parsed a
parse_from a (o ∷ os) left = go_on (apply_opt a o) (λ b. parse_from b os left)

unfoldable pub args_parse : List Opt → ℕ → ArgsResult
unfolding parse_from defaults
args_parse os left = parse_from defaults os left
