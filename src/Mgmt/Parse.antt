-- ===== src/Mgmt/Parse.antt =====
-- `parse_auth` and `parse_request` of src/mgmt.c, on the bytes that wait in the read buffer. An
-- array that a parser fills is the C string that it then holds.
pub mod Bounds
use tpe2026c1_socks.Prelude.{
  Bytes, [], if◌then◌else◌, length, ltb, not, ℕ, ◌*◌, ◌+◌, ◌==◌, ◌^◌, ◌||◌,
}
use tpe2026c1_socks.Prelude.Memory.{byte_at, window}
use tpe2026c1_socks.Prelude.Text.{c_string}
use tpe2026c1_socks.Smp.{
  smp_cfg_auth_required, smp_cmd_add_user, smp_cmd_del_user, smp_cmd_get_config, smp_cmd_list_users,
  smp_cmd_metrics, smp_cmd_set_config, smp_version,
}

-- The returned `int`: 0, -1, -2, or the bytes consumed.
pub data Rc : Type 0 where
  need_more refused unknown : Rc
  consumed : ℕ → Rc

-- The results are the return value, `user` and `pass`; the arrays are read only if bytes were
-- consumed.
unfoldable pub parse_auth : Bytes → Rc × Bytes × Bytes
parse_auth p =
    let len = length p in
    let ulen = byte_at p 1 in
    let plen = byte_at p (2 + ulen) in
    let need = 2 + ulen + 1 + plen in
    if ltb len 2
    then (need_more, [], [])
    else if not (byte_at p 0 == smp_version)
    then (refused, [], [])
    else if ulen == 0
    then (refused, [], [])
    else if ltb len (2 + ulen + 1)
    then (need_more, [], [])
    else if plen == 0
    then (refused, [], [])
    else if ltb len need
    then (need_more, [], [])
    else (consumed need, c_string (window p 2 ulen), c_string (window p (3 + ulen) plen))

-- `struct mgmt_req`
pub record MgmtReq : Type 0 where
  pub cmd : ℕ
  pub user : Bytes
  pub pass : Bytes
  pub key : ℕ
  pub u32 : ℕ
  pub u8 : ℕ

-- What `memset` leaves.
abbrev pub no_req : MgmtReq
no_req = record { cmd = 0; user = []; pass = []; key = 0; u32 = 0; u8 = 0 }

-- `case SMP_CMD_ADD_USER`
unfoldable pub parse_add_user : Bytes → MgmtReq → Rc × MgmtReq
parse_add_user p r =
    let len = length p in
    let ulen = byte_at p 2 in
    let plen = byte_at p (3 + ulen) in
    let need = 3 + ulen + 1 + plen in
    if ltb len 3
    then (need_more, r)
    else if ulen == 0
    then (refused, r)
    else if ltb len (3 + ulen + 1)
    then (need_more, r)
    else if plen == 0
    then (refused, r)
    else if ltb len need
    then (need_more, r)
    else (
      consumed need,
      record r { user = c_string (window p 3 ulen); pass = c_string (window p (4 + ulen) plen) },
    )

-- `case SMP_CMD_DEL_USER`
unfoldable pub parse_del_user : Bytes → MgmtReq → Rc × MgmtReq
parse_del_user p r =
    let len = length p in
    let ulen = byte_at p 2 in
    let need = 3 + ulen in
    if ltb len 3
    then (need_more, r)
    else if ulen == 0
    then (refused, r)
    else if ltb len need
    then (need_more, r)
    else (consumed need, record r { user = c_string (window p 3 ulen) })

-- `p[i] << 24 | p[i+1] << 16 | p[i+2] << 8 | p[i+3]`, whose parts do not overlap.
abbrev pub be32_at : Bytes → ℕ → ℕ
be32_at p i =
    byte_at p i * 2 ^ 24
    + byte_at p (i + 1) * 2 ^ 16
    + byte_at p (i + 2) * 2 ^ 8
    + byte_at p (i + 3)

-- `case SMP_CMD_SET_CONFIG`
unfoldable pub parse_set_config : Bytes → MgmtReq → Rc × MgmtReq
parse_set_config p r =
    let len = length p in
    let key = byte_at p 2 in
    if ltb len 3
    then (need_more, r)
    else if key == smp_cfg_auth_required
    then (if ltb len 4
        then (need_more, record r { key = key })
        else (consumed 4, record r { key = key; u8 = byte_at p 3 }))
    else if ltb len 7
    then (need_more, record r { key = key })
    else (consumed 7, record r { key = key; u32 = be32_at p 3 })

unfoldable pub parse_request : Bytes → Rc × MgmtReq
unfolding parse_add_user parse_del_user parse_set_config
parse_request p =
    let cmd = byte_at p 1 in
    let r = record no_req { cmd = cmd } in
    if ltb (length p) 2
    then (need_more, no_req)
    else if not (byte_at p 0 == smp_version)
    then (refused, no_req)
    else if cmd == smp_cmd_metrics || cmd == smp_cmd_list_users || cmd == smp_cmd_get_config
    then (consumed 2, r)
    else if cmd == smp_cmd_add_user
    then parse_add_user p r
    else if cmd == smp_cmd_del_user
    then parse_del_user p r
    else if cmd == smp_cmd_set_config
    then parse_set_config p r
    else (unknown, r)
