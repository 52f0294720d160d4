-- ===== src/Args/Tests.antt =====
-- Command lines for src/args.c.
use tpe2026c1_socks.Args.Parsed.{IsValid, args_parse-IsValid}
use tpe2026c1_socks.Args.{
  Opt, Socks5Args, args_parse, default_host, opt_n, opt_p, opt_u, parse_port, split_userpass,
}
use tpe2026c1_socks.Config.{admin}
use tpe2026c1_socks.Prelude.{Bytes, List, [], false, none, refl, some, true, ◌∷◌, ◌≡◌}

-- "80", behind a blank and a plus.
abbrev eighty : Bytes
eighty = b' ' ∷ b'+' ∷ b'8' ∷ b'0' ∷ []

abbrev ana_pw : Bytes
ana_pw = b'a' ∷ b':' ∷ b'p' ∷ b':' ∷ []

ports :
    (parse_port eighty ≡ some 80)
    × (parse_port (b'-' ∷ b'1' ∷ []) ≡ none)
    × (parse_port (b'8' ∷ b'x' ∷ []) ≡ none)
    × (parse_port [] ≡ none)
unfolding parse_port
ports = (refl, refl, refl, refl)

abbrev line : List Opt
line = opt_p eighty ∷ opt_u ana_pw ∷ opt_n ∷ []

abbrev chosen_args : Socks5Args
chosen_args = record {
  socks_addr = [];
  socks_port = 80;
  mgmt_addr = default_host;
  mgmt_port = 8080;
  admin_user = admin;
  admin_pass = admin;
  require_auth = true;
  pop3_sniff = false;
  users = record { name = b'a' ∷ []; pass = b'p' ∷ b':' ∷ [] } ∷ [];
}

args_parse-IsValid_example : IsValid chosen_args
unfolding args_parse parse_port split_userpass
args_parse-IsValid_example = args_parse-IsValid line 0 chosen_args refl
