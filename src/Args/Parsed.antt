-- ===== src/Args/Parsed.antt =====
-- What `args_parse` of src/args.c promises to main.c of the arguments that it accepts.
use tpe2026c1_socks.Users.{users_max}
use tpe2026c1_socks.Args.{
  Socks5Args, ArgsUser, ArgsResult, defaults, exits, parse_port, parsed, apply_opt, digits,
  has_digit, opt_u, or_exit, sign, skip_space, split_userpass, Opt, args_parse, opt_a, opt_big_l,
  opt_big_p, opt_d, opt_error, opt_h, opt_l, opt_n, opt_p, opt_v, parse_from, go_on,
}
use tpe2026c1_socks.Args.Split.{Fills, split_userpass_iff}
use tpe2026c1_socks.Prelude.{
  All, Bytes, arith, length, some, ℕ, ◌<◌, ◌≡◌, ◌≤◌, All-append, Bool, Bool-cases, Option, [],
  false, inl, inr, leb, length-append, length-take, ltb, none, not, refl, some_inj, take, true,
  ◌++◌, ◌==◌, ◌||◌, ◌∷◌, subst, List, ap, sym,
}

abbrev pub IsPort : ℕ → Type 0
IsPort n = (1 ≤ n) × (n ≤ 65535)

pub record IsValid (a : Socks5Args) : Type 0 where
  pub socks_port : IsPort a.socks_port
  pub mgmt_port : IsPort a.mgmt_port
  pub socks_addr : length a.socks_addr < 64
  pub mgmt_addr : length a.mgmt_addr < 64
  pub admin_user : Fills 256 a.admin_user
  pub admin_pass : Fills 256 a.admin_pass
  pub few : length a.users ≤ users_max
  pub fields : All (λ u. Fills 256 u.name × Fills 256 u.pass) a.users

-- The arguments are sound where the parse went on.
abbrev Accepts : ArgsResult → Type 0
Accepts (exits n) = Unit
Accepts (parsed a) = IsValid a

-- The last two of five tests.
tests_in : (a b c : Bool) (v : ℕ) → (a || b || c || ltb v 1 || ltb 65535 v) ≡ false → IsPort v
tests_in false false false v h = ground arith
tests_in true b c v h = absurd (cc)
tests_in false true c v h = absurd (cc)
tests_in false false true v h = absurd (cc)

pub parse_port-IsPort : (s : Bytes) (n : ℕ) → parse_port s ≡ some n → IsPort n
unfolding parse_port
parse_port-IsPort s n e =
    let minus : Bool = (sign (skip_space s)).0 in
    let t : Bytes = (sign (skip_space s)).1 in
    let v : ℕ = (digits 0 t).0 in
    elim (Bool-cases
      (not (has_digit t) || not (length (digits 0 t).1 == 0) || minus || ltb v 1 || ltb 65535 v)) [
        | inl refuses ↦ absurd (cc (rw refuses at e))
        | inr fit ↦
            let q : v ≡ n = some_inj (rw fit at e) in
            subst IsPort q
              (tests_in (not (has_digit t)) (not (length (digits 0 t).1 == 0)) minus v fit)
      ]

defaults-IsValid : IsValid defaults
unfolding defaults
defaults-IsValid = omega arith

or_exit-Accepts :
    {A : Type 0} (o : Option A) (f : A → ArgsResult)
    → ((a : A) → o ≡ some a → Accepts (f a))
    → Accepts (or_exit o f)
or_exit-Accepts none f h = tt
or_exit-Accepts (some a) f h = h a refl

split-Fills :
    (s : Bytes) (t : Bytes × Bytes)
    → split_userpass s 256 256 ≡ some t
    → Fills 256 t.0 × Fills 256 t.1
split-Fills s t e = let (_, _, a, b) = (split_userpass_iff s t.0 t.1 256 256).0 e in (a, b)

short_address : (s : Bytes) → length (take 63 s) < 64
short_address s = omega (arith, length-take 63 s)

added_user :
    (a : Socks5Args) (u : ArgsUser)
    → IsValid a
    → leb users_max (length a.users) ≡ false
    → Fills 256 u.name × Fills 256 u.pass
    → IsValid (record a { users = a.users ++ u ∷ [] })
added_user a u v room f = record {
  socks_port = v.socks_port;
  mgmt_port = v.mgmt_port;
  socks_addr = v.socks_addr;
  mgmt_addr = v.mgmt_addr;
  admin_user = v.admin_user;
  admin_pass = v.admin_pass;
  few = ground (arith, length-append a.users (u ∷ []));
  fields = All-append (λ w. Fills 256 w.name × Fills 256 w.pass) a.users (u ∷ []) v.fields (f, tt);
}

user-Accepts : (a : Socks5Args) (s : Bytes) → IsValid a → Accepts (apply_opt a (opt_u s))
unfolding apply_opt
user-Accepts a s v = elim (Bool-cases (leb users_max (length a.users))) [
  | inl full ↦ rw full tt
  | inr room ↦ rw room (
      or_exit-Accepts (split_userpass s 256 256)
        (λ t. parsed (record a { users = a.users ++ record { name = t.0; pass = t.1 } ∷ [] }))
        (λ t e. added_user a (record { name = t.0; pass = t.1 }) v room (split-Fills s t e)))
]

-- A change that keeps the users.
changed :
    {a : Socks5Args} (b : Socks5Args)
    → IsValid a
    → IsPort b.socks_port × IsPort b.mgmt_port
    → (length b.socks_addr < 64) × (length b.mgmt_addr < 64)
    → Fills 256 b.admin_user × Fills 256 b.admin_pass
    → b.users ≡ a.users
    → IsValid b
changed b v ports addresses admins same = record {
  socks_port = ports.0;
  mgmt_port = ports.1;
  socks_addr = addresses.0;
  mgmt_addr = addresses.1;
  admin_user = admins.0;
  admin_pass = admins.1;
  few = omega (arith, ap length same, v.few);
  fields = subst (All (λ u. Fills 256 u.name × Fills 256 u.pass)) (sym same) v.fields;
}

apply_opt-Accepts : (a : Socks5Args) (o : Opt) → IsValid a → Accepts (apply_opt a o)
unfolding apply_opt
apply_opt-Accepts a opt_h v = tt
apply_opt-Accepts a opt_v v = tt
apply_opt-Accepts a opt_error v = tt
apply_opt-Accepts a (opt_u s) v = user-Accepts a s v
apply_opt-Accepts a opt_n v =
    changed (record a { require_auth = true }) v (v.socks_port, v.mgmt_port)
      (v.socks_addr, v.mgmt_addr) (v.admin_user, v.admin_pass) refl
apply_opt-Accepts a opt_d v =
    changed (record a { pop3_sniff = true }) v (v.socks_port, v.mgmt_port)
      (v.socks_addr, v.mgmt_addr) (v.admin_user, v.admin_pass) refl
apply_opt-Accepts a (opt_l s) v =
    changed (record a { socks_addr = take 63 s }) v (v.socks_port, v.mgmt_port)
      (short_address s, v.mgmt_addr) (v.admin_user, v.admin_pass) refl
apply_opt-Accepts a (opt_big_l s) v =
    changed (record a { mgmt_addr = take 63 s }) v (v.socks_port, v.mgmt_port)
      (v.socks_addr, short_address s) (v.admin_user, v.admin_pass) refl
apply_opt-Accepts a (opt_p s) v =
    or_exit-Accepts (parse_port s) (λ n. parsed (record a { socks_port = n }))
      (λ n e.
        changed (record a { socks_port = n }) v (parse_port-IsPort s n e, v.mgmt_port)
          (v.socks_addr, v.mgmt_addr) (v.admin_user, v.admin_pass) refl)
apply_opt-Accepts a (opt_big_p s) v =
    or_exit-Accepts (parse_port s) (λ n. parsed (record a { mgmt_port = n }))
      (λ n e.
        changed (record a { mgmt_port = n }) v (v.socks_port, parse_port-IsPort s n e)
          (v.socks_addr, v.mgmt_addr) (v.admin_user, v.admin_pass) refl)
apply_opt-Accepts a (opt_a s) v =
    or_exit-Accepts (split_userpass s 256 256)
      (λ t. parsed (record a { admin_user = t.0; admin_pass = t.1 }))
      (λ t e.
        changed (record a { admin_user = t.0; admin_pass = t.1 }) v (v.socks_port, v.mgmt_port)
          (v.socks_addr, v.mgmt_addr) (split-Fills s t e) refl)

go_on-Accepts :
    (r : ArgsResult) (f : Socks5Args → ArgsResult)
    → Accepts r
    → ((b : Socks5Args) → IsValid b → Accepts (f b))
    → Accepts (go_on r f)
go_on-Accepts (exits n) f h k = tt
go_on-Accepts (parsed a) f h k = k a h

parse_from-Accepts :
    (os : List Opt) (a : Socks5Args) (left : ℕ) → IsValid a → Accepts (parse_from a os left)
unfolding parse_from
parse_from-Accepts [] a left v = elim (Bool-cases (ltb 0 left)) [
  | inl words ↦ rw words tt
  | inr none_left ↦ rw none_left v
]
parse_from-Accepts (o ∷ os) a left v =
    go_on-Accepts (apply_opt a o) (λ b. parse_from b os left) (apply_opt-Accepts a o v)
      (λ b w. parse_from-Accepts os b left w)

-- Whatever the command line, `args_parse` exits or goes on with ports from 1 to 65535, addresses,
-- names and passwords that fit their arrays with a terminator, no empty name or password, and at
-- most 64 users.
pub args_parse-IsValid :
    (os : List Opt) (left : ℕ) (a : Socks5Args) → args_parse os left ≡ parsed a → IsValid a
unfolding args_parse
args_parse-IsValid os left a e =
    subst Accepts e (parse_from-Accepts os defaults left defaults-IsValid)
