-- ===== src/Mgmt/Parse/Bounds.antt =====
-- How much of its input each parser of src/mgmt.c takes.
-- No parser consumes more than it was given.
use tpe2026c1_socks.Mgmt.Parse.{
  MgmtReq, Rc, consumed, no_req, parse_add_user, parse_auth, parse_del_user, parse_request,
  parse_set_config, unknown,
}
use tpe2026c1_socks.Prelude.{
  Bool-cases, Bytes, arith, if◌then◌else◌, inl, inr, length, ltb, ℕ, ◌==◌, ◌||◌, ◌≤◌,
}
use tpe2026c1_socks.Prelude.Memory.{byte_at}
use tpe2026c1_socks.Smp.{
  smp_cmd_add_user, smp_cmd_del_user, smp_cmd_get_config, smp_cmd_list_users, smp_cmd_metrics,
  smp_cmd_set_config, smp_version,
}

abbrev pub Bounded : ℕ → Rc → Type 0
Bounded len (consumed n) = n ≤ len
Bounded len unknown = 2 ≤ len
Bounded len _ = Unit

pub parse_auth-Bounded : (p : Bytes) → Bounded (length p) (parse_auth p).0
unfolding parse_auth
parse_auth-Bounded p = ground arith

add_user-Bounded : (p : Bytes) (r : MgmtReq) → Bounded (length p) (parse_add_user p r).0
unfolding parse_add_user
add_user-Bounded p r = ground arith

del_user-Bounded : (p : Bytes) (r : MgmtReq) → Bounded (length p) (parse_del_user p r).0
unfolding parse_del_user
del_user-Bounded p r = ground arith

set_config-Bounded : (p : Bytes) (r : MgmtReq) → Bounded (length p) (parse_set_config p r).0
unfolding parse_set_config
set_config-Bounded p r = ground arith

-- The chain of commands, from ADD_USER on.
command-Bounded :
    (p : Bytes) (r : MgmtReq)
    → 2 ≤ length p
    → Bounded
        (length p)
        (if r.cmd == smp_cmd_add_user
          then parse_add_user p r
          else if r.cmd == smp_cmd_del_user
          then parse_del_user p r
          else if r.cmd == smp_cmd_set_config
          then parse_set_config p r
          else (unknown, r)).0
command-Bounded p r two = elim (Bool-cases (r.cmd == smp_cmd_add_user)) [
  | inl t ↦ rw t (add_user-Bounded p r)
  | inr t1 ↦ elim (Bool-cases (r.cmd == smp_cmd_del_user)) [
    | inl t ↦ rw (t1, t) (del_user-Bounded p r)
    | inr t2 ↦ elim (Bool-cases (r.cmd == smp_cmd_set_config)) [
      | inl t ↦ rw (t1, t2, t) (set_config-Bounded p r)
      | inr t3 ↦ rw (t1, t2, t3) two
    ]
  ]
]

-- `parse_request` never reports more bytes consumed than it was given, and reports an unknown
-- command only with the two bytes that name it.
pub parse_request-Bounded : (p : Bytes) → Bounded (length p) (parse_request p).0
unfolding parse_request
parse_request-Bounded p = elim (Bool-cases (ltb (length p) 2)) [
  | inl short ↦ rw short tt
  | inr h ↦ elim (Bool-cases (byte_at p 0 == smp_version)) [
    | inr t ↦ rw (h, t) tt
    | inl t ↦
        let two : 2 ≤ length p = ground arith in
        let cmd = byte_at p 1 in
        elim (Bool-cases
          (cmd == smp_cmd_metrics || cmd == smp_cmd_list_users || cmd == smp_cmd_get_config)) [
            | inl u ↦ rw (h, t, u) two
            | inr u ↦ rw (h, t, u) (command-Bounded p (record no_req { cmd = cmd }) two)
          ]
  ]
]
