-- ===== src/Mgmt/Process/Answer.antt =====
-- A command's effect and its answer, each by itself, and `process_request` against them.
use tpe2026c1_socks.Users.Table
use tpe2026c1_socks.Buffer.Bounds
use tpe2026c1_socks.Buffer.{Buffer}
use tpe2026c1_socks.Buffer.Queue.{Holds, contents}
use tpe2026c1_socks.Mgmt.Bytes.{
  config_bytes, header, metrics_bytes, emit_config, emit_metrics, emit_simple,
}
use tpe2026c1_socks.Mgmt.ListUsers.{emit_list_users, list_bytes}
use tpe2026c1_socks.Mgmt.Parse.{MgmtReq}
use tpe2026c1_socks.Mgmt.Process.{
  Shared, add_status, del_status, process_request, set_config, users_add, users_del, keep,
}
use tpe2026c1_socks.Prelude.{
  Bool-cases, Bytes, arith, if◌then◌else◌, inl, inr, length, some, ℕ, ◌++◌, ◌+◌, ◌==◌, ◌≡◌, ◌≤◌,
  ==_iff, Option, false, ◌>>=◌, ◌⊎◌,
}
use tpe2026c1_socks.Smp.{
  smp_cmd_add_user, smp_cmd_del_user, smp_cmd_get_config, smp_cmd_list_users, smp_cmd_metrics,
  smp_cmd_set_config, smp_unknown_command,
}
use tpe2026c1_socks.Users.Names.{names}
use tpe2026c1_socks.Buffer.Emit.{Emits}
use tpe2026c1_socks.Mgmt.Wire.{resp_simple}

-- The globals that a request leaves.
unfoldable pub effect : Shared → MgmtReq → Shared
effect g r =
    if r.cmd == smp_cmd_add_user
    then record g { users = (users_add g.users (some r.user) (some r.pass)).1 }
    else if r.cmd == smp_cmd_del_user
    then record g { users = (users_del g.users (some r.user)).1 }
    else if r.cmd == smp_cmd_set_config
    then record g { config = (set_config g.config r).1 }
    else g

-- The status of a response without data.
unfoldable pub status : Shared → MgmtReq → ℕ
status g r =
    if r.cmd == smp_cmd_add_user
    then add_status (users_add g.users (some r.user) (some r.pass)).0
    else if r.cmd == smp_cmd_del_user
    then del_status (users_del g.users (some r.user)).0
    else if r.cmd == smp_cmd_set_config
    then (set_config g.config r).0
    else smp_unknown_command

-- The bytes of the response.
unfoldable pub answer : Shared → MgmtReq → Bytes
unfolding status
answer g r =
    if r.cmd == smp_cmd_metrics
    then metrics_bytes g.metrics g.users
    else if r.cmd == smp_cmd_get_config
    then config_bytes g.config
    else if r.cmd == smp_cmd_list_users
    then list_bytes (names g.users)
    else header r.cmd (status g r) 0

-- A call ended well: it left the globals `g`, and the buffer `b` with the bytes `bs` appended.
abbrev pub Answered : Shared → Buffer → Bytes → Option (Shared × Buffer) → Type 0
Answered g b bs r = (c : Buffer) × (r ≡ some (g, c)) × Holds b c (contents b ++ bs)

module _ (b : Buffer) (vb : Bounds.IsValid b) (room : b.write + 16391 ≤ b.limit) where
  keep-Answered :
      (g : Shared) {f : Buffer → Option Buffer} {bs : Bytes}
      → Emits f bs
      → length bs ≤ 16391
      → Answered g b bs (keep g (f b))
  keep-Answered g {f} e l = let (c, q, k, _) = e.emits b vb (omega arith) in (c, rw (q, ◌>>=◌), k)

  simple-Answered :
      (g : Shared) (cmd st : ℕ) → Answered g b (header cmd st 0) (keep g (resp_simple cmd st b))
  simple-Answered g cmd st = keep-Answered g (emit_simple cmd st) (omega arith)

  -- The three commands that change the globals, and an unknown one.
  change-Answered :
      (g : Shared) (r : MgmtReq)
      → (r.cmd == smp_cmd_metrics) ≡ false
      → (r.cmd == smp_cmd_get_config) ≡ false
      → (r.cmd == smp_cmd_list_users) ≡ false
      → Answered (effect g r) b (answer g r) (process_request g b r)
  unfolding process_request effect answer
  change-Answered g r t0 t1 t2 = elim (Bool-cases (r.cmd == smp_cmd_add_user)) [
    | inl add ↦ rw (t0, t1, t2, add) (simple-Answered _ _ _)
    | inr t3 ↦ elim (Bool-cases (r.cmd == smp_cmd_del_user)) [
      | inl del ↦ rw (t0, t1, t2, t3, del) (simple-Answered _ _ _)
      | inr t4 ↦ elim (Bool-cases (r.cmd == smp_cmd_set_config)) [
        | inl conf ↦ rw (t0, t1, t2, t3, t4, conf) (simple-Answered _ _ _)
        | inr t5 ↦ rw (t0, t1, t2, t3, t4, t5) (simple-Answered _ _ _)
      ]
    ]
  ]

-- The three commands that only read.
effect_read :
    (g : Shared) (r : MgmtReq)
    → (r.cmd ≡ smp_cmd_metrics) ⊎ ((r.cmd ≡ smp_cmd_get_config) ⊎ (r.cmd ≡ smp_cmd_list_users))
    → effect g r ≡ g
unfolding effect
effect_read g r h = ground arith

-- On valid users and with room for the largest response, `process_request` does not abort: it
-- leaves the globals of `effect` and appends the bytes of `answer` to the write buffer.
pub process_request_lem :
    (g : Shared) (b : Buffer) (r : MgmtReq)
    → Table.IsValid g.users
    → Bounds.IsValid b
    → b.write + 16391 ≤ b.limit
    → Answered (effect g r) b (answer g r) (process_request g b r)
unfolding process_request answer
process_request_lem g b r vu vb room = elim (Bool-cases (r.cmd == smp_cmd_metrics)) [
  | inl t ↦
      rw (effect_read g r (inl ((==_iff r.cmd smp_cmd_metrics).0 t)), t)
        (keep-Answered b vb room g (emit_metrics g.metrics g.users) (omega arith))
  | inr t0 ↦ elim (Bool-cases (r.cmd == smp_cmd_get_config)) [
    | inl t ↦
        rw (effect_read g r (inr (inl ((==_iff r.cmd smp_cmd_get_config).0 t))), t0, t)
          (keep-Answered b vb room g (emit_config g.config) (omega arith))
    | inr t1 ↦ elim (Bool-cases (r.cmd == smp_cmd_list_users)) [
      | inl t ↦
          let (e, l) = emit_list_users g.users vu in
          rw (effect_read g r (inr (inr ((==_iff r.cmd smp_cmd_list_users).0 t))), t0, t1, t)
            (keep-Answered b vb room g e l)
      | inr t2 ↦ change-Answered b vb room g r t0 t1 t2
    ]
  ]
]
