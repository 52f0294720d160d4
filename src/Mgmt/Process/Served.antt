-- ===== src/Mgmt/Process/Served.antt =====
-- What each command of the management protocol does, by the map of the users and the values of the
-- configuration, and `process_request` of src/mgmt.c against it.
use tpe2026c1_socks.Users.Table
use tpe2026c1_socks.Buffer.Bounds
use tpe2026c1_socks.Buffer.{Buffer}
use tpe2026c1_socks.Config.{ProxyConfig, config_max_buffer, config_min_buffer}
use tpe2026c1_socks.Mgmt.Bytes.{config_bytes, header, metrics_bytes}
use tpe2026c1_socks.Mgmt.ListUsers.{list_bytes}
use tpe2026c1_socks.Mgmt.Parse.{MgmtReq}
use tpe2026c1_socks.Mgmt.Process.{
  Shared, add_status, clamp_buffer, del_status, process_request, set_config,
}
use tpe2026c1_socks.Mgmt.Process.Answer.{Answered, answer, effect, process_request_lem, status}
use tpe2026c1_socks.Prelude.{
  All, Bool, Bool-cases, Bytes, List, ==_iff, ap, arith, if◌then◌else◌, inl, inr, none, refl, some,
  true, ℕ, ◌+◌, ◌<◌, ◌==◌, ◌↔◌, ◌≡◌, ◌≢◌, ◌≤◌, ◌⊎◌, false, not, ◌&&◌,
}
use tpe2026c1_socks.Prelude.Text.{str_eq}
use tpe2026c1_socks.Smp.{
  smp_cfg_auth_required, smp_cfg_conn_timeout, smp_cfg_io_buffer_size, smp_cmd_add_user,
  smp_cmd_del_user, smp_cmd_get_config, smp_cmd_list_users, smp_cmd_metrics, smp_cmd_set_config,
  smp_invalid_arguments, smp_ok, smp_unknown_command, smp_user_limit_reached, smp_user_not_found,
}
use tpe2026c1_socks.Users.{
  User, UsersResult, already_exists, users_add, users_del, users_full, users_invalid,
  users_not_found, users_ok, valid_field,
}
use tpe2026c1_socks.Users.Map.{password}
use tpe2026c1_socks.Users.Names.{names}
use tpe2026c1_socks.Users.Operations.{Added, users_add_lem, users_del_lem}
use tpe2026c1_socks.Users.Table.{Fits}

-- ADD_USER: the name gets the password and no other name changes; or the table is full and has no
-- such name; or a field has not 1 to 255 bytes.
pub data Adds (db : List User) (u w : Bytes) (db' : List User) (st : ℕ) : Type 0 where
  added :
      st ≡ smp_ok
      → ((m : Bytes) → password db' m ≡ (if str_eq u m then some w else password db m))
      → Adds db u w db' st
  full :
      st ≡ smp_user_limit_reached
      → db' ≡ db
      → password db u ≡ none
      → All (λ e. e.used ≡ true) db
      → Adds db u w db' st
  unfit : st ≡ smp_invalid_arguments → db' ≡ db → ((Fits u × Fits w) → ⊥) → Adds db u w db' st

-- DEL_USER: the name is taken from the map, or it was not there.
pub data Deletes (db : List User) (u : Bytes) (db' : List User) (st : ℕ) : Type 0 where
  deleted :
      st ≡ smp_ok
      → password db u ≢ none
      → ((m : Bytes) → password db' m ≡ (if str_eq u m then none else password db m))
      → Deletes db u db' st
  missing : st ≡ smp_user_not_found → db' ≡ db → password db u ≡ none → Deletes db u db' st

-- SET_CONFIG: one value changes; the size of the buffers is the one asked for, or the nearest limit.
pub data Sets (cfg : ProxyConfig) (r : MgmtReq) (cfg' : ProxyConfig) (st : ℕ) : Type 0 where
  sets_size :
      (n : ℕ)
      → r.key ≡ smp_cfg_io_buffer_size
      → st ≡ smp_ok
      → ((r.u32 < config_min_buffer) × (n ≡ config_min_buffer))
        ⊎ (((config_max_buffer < r.u32) × (n ≡ config_max_buffer))
            ⊎ ((config_min_buffer ≤ r.u32) × (r.u32 ≤ config_max_buffer) × (n ≡ r.u32)))
      → cfg' ≡ record cfg { io_buffer_size = n }
      → Sets cfg r cfg' st
  sets_timeout :
      r.key ≡ smp_cfg_conn_timeout
      → st ≡ smp_ok
      → cfg' ≡ record cfg { conn_timeout_secs = r.u32 }
      → Sets cfg r cfg' st
  sets_auth :
      (b : Bool)
      → r.key ≡ smp_cfg_auth_required
      → st ≡ smp_ok
      → (b ≡ false) ↔ (r.u8 ≡ 0)
      → cfg' ≡ record cfg { auth_required = b }
      → Sets cfg r cfg' st
  bad_key :
      r.key ≢ smp_cfg_io_buffer_size
      → r.key ≢ smp_cfg_conn_timeout
      → r.key ≢ smp_cfg_auth_required
      → st ≡ smp_invalid_arguments
      → cfg' ≡ cfg
      → Sets cfg r cfg' st

-- A request of each command: the globals `g'` that it leaves, and the bytes `bs` of its answer.
pub data Processed (g : Shared) (r : MgmtReq) (g' : Shared) (bs : Bytes) : Type 0 where
  tells_metrics :
      r.cmd ≡ smp_cmd_metrics → g' ≡ g → bs ≡ metrics_bytes g.metrics g.users → Processed g r g' bs
  tells_config :
      r.cmd ≡ smp_cmd_get_config → g' ≡ g → bs ≡ config_bytes g.config → Processed g r g' bs
  tells_users :
      r.cmd ≡ smp_cmd_list_users → g' ≡ g → bs ≡ list_bytes (names g.users) → Processed g r g' bs
  adds :
      (db : List User) (st : ℕ)
      → r.cmd ≡ smp_cmd_add_user
      → g' ≡ record g { users = db }
      → bs ≡ header r.cmd st 0
      → Adds g.users r.user r.pass db st
      → Processed g r g' bs
  deletes :
      (db : List User) (st : ℕ)
      → r.cmd ≡ smp_cmd_del_user
      → g' ≡ record g { users = db }
      → bs ≡ header r.cmd st 0
      → Deletes g.users r.user db st
      → Processed g r g' bs
  sets :
      (cfg : ProxyConfig) (st : ℕ)
      → r.cmd ≡ smp_cmd_set_config
      → g' ≡ record g { config = cfg }
      → bs ≡ header r.cmd st 0
      → Sets g.config r cfg st
      → Processed g r g' bs
  not_known :
      ((r.cmd ≢ smp_cmd_metrics)
        × (r.cmd ≢ smp_cmd_get_config)
        × (r.cmd ≢ smp_cmd_list_users)
        × (r.cmd ≢ smp_cmd_add_user)
        × (r.cmd ≢ smp_cmd_del_user)
        × (r.cmd ≢ smp_cmd_set_config))
      → g' ≡ g
      → bs ≡ header r.cmd smp_unknown_command 0
      → Processed g r g' bs

by_result :
    (db : List User) (u w : Bytes) (r : UsersResult × List User)
    → Added db u w r
    → Adds db u w r.1 (add_status r.0)
by_result db u w (users_ok, db') h = added refl h
by_result db u w (users_full, db') h = full refl h.0 h.1 h.2
by_result db u w (already_exists, db') h = absurd h
by_result db u w (users_not_found, db') h = absurd h
by_result db u w (users_invalid, db') h = absurd h

refused_fields :
    (u w : Bytes)
    → (valid_field (some u) 255 && valid_field (some w) 255) ≡ false
    → (Fits u × Fits w)
    → ⊥
unfolding valid_field
refused_fields u w e (a, b) = ground (arith, e, a, b)

users_add-Adds :
    (db : List User) (u w : Bytes)
    → Table.IsValid db
    → Adds db u w (users_add db (some u) (some w)).1 (add_status (users_add db (some u) (some w)).0)
users_add-Adds db u w v = elim (users_add_lem db (some u) (some w) v).1 [
  | inl (e, bad) ↦ rw e (unfit refl refl (refused_fields u w bad))
  | inr (hu, hw, a) ↦ by_result db u w (users_add db (some u) (some w)) a
]

users_del-Deletes :
    (db : List User) (u : Bytes)
    → Table.IsValid db
    → Deletes db u (users_del db (some u)).1 (del_status (users_del db (some u)).0)
users_del-Deletes db u v = elim (users_del_lem db u v).1 [
  | inl (e, gone) ↦ rw e (missing refl refl gone)
  | inr (e, there, m) ↦ deleted (ap del_status e) there m
]

set_config-Sets :
    (cfg : ProxyConfig) (r : MgmtReq) → Sets cfg r (set_config cfg r).1 (set_config cfg r).0
unfolding set_config clamp_buffer
set_config-Sets cfg r = elim (Bool-cases (r.key == smp_cfg_io_buffer_size)) [
  | inl t ↦
      rw (t) (sets_size _ ((==_iff r.key smp_cfg_io_buffer_size).0 t) refl (ground arith) refl)
  | inr t0 ↦ elim (Bool-cases (r.key == smp_cfg_conn_timeout)) [
    | inl t ↦ rw (t0, t) (sets_timeout ((==_iff r.key smp_cfg_conn_timeout).0 t) refl refl)
    | inr t1 ↦ elim (Bool-cases (r.key == smp_cfg_auth_required)) [
      | inl t ↦
          rw (t0, t1, t)
            (sets_auth (not (r.u8 == 0)) ((==_iff r.key smp_cfg_auth_required).0 t) refl
              (ground arith) refl)
      | inr t2 ↦
          rw (t0, t1, t2)
            (bad_key (ground (arith, t0)) (ground (arith, t1)) (ground (arith, t2)) refl refl)
    ]
  ]
]

answer-Processed :
    (g : Shared) (r : MgmtReq) → Table.IsValid g.users → Processed g r (effect g r) (answer g r)
unfolding effect answer status
answer-Processed g r v = elim (Bool-cases (r.cmd == smp_cmd_metrics)) [
  | inl t ↦
      let e : r.cmd ≡ smp_cmd_metrics = (==_iff r.cmd smp_cmd_metrics).0 t in
      tells_metrics e (ground (arith, e)) (rw t refl)
  | inr t0 ↦ elim (Bool-cases (r.cmd == smp_cmd_get_config)) [
    | inl t ↦
        let e : r.cmd ≡ smp_cmd_get_config = (==_iff r.cmd smp_cmd_get_config).0 t in
        tells_config e (ground (arith, e)) (rw (t0, t) refl)
    | inr t1 ↦ elim (Bool-cases (r.cmd == smp_cmd_list_users)) [
      | inl t ↦
          let e : r.cmd ≡ smp_cmd_list_users = (==_iff r.cmd smp_cmd_list_users).0 t in
          tells_users e (ground (arith, e)) (rw (t0, t1, t) refl)
      | inr t2 ↦ elim (Bool-cases (r.cmd == smp_cmd_add_user)) [
        | inl t ↦
            rw (t0, t1, t2, t)
              (adds _ _ ((==_iff r.cmd smp_cmd_add_user).0 t) refl refl
                (users_add-Adds g.users r.user r.pass v))
        | inr t3 ↦ elim (Bool-cases (r.cmd == smp_cmd_del_user)) [
          | inl t ↦
              rw (t0, t1, t2, t3, t)
                (deletes _ _ ((==_iff r.cmd smp_cmd_del_user).0 t) refl refl
                  (users_del-Deletes g.users r.user v))
          | inr t4 ↦ elim (Bool-cases (r.cmd == smp_cmd_set_config)) [
            | inl t ↦
                rw (t0, t1, t2, t3, t4, t)
                  (sets _ _ ((==_iff r.cmd smp_cmd_set_config).0 t) refl refl
                    (set_config-Sets g.config r))
            | inr t5 ↦
                rw (t0, t1, t2, t3, t4, t5)
                  (not_known
                    (
                      ground (arith, t0),
                      ground (arith, t1),
                      ground (arith, t2),
                      ground (arith, t3),
                      ground (arith, t4),
                      ground (arith, t5),
                    )
                    refl refl)
          ]
        ]
      ]
    ]
  ]
]

-- On a valid table of users and with room for the largest response, `process_request` does not
-- abort. METRICS, GET_CONFIG and LIST_USERS change nothing and append their data. ADD_USER maps the
-- name to the password and keeps every other name, or reports that every entry is used, or that a
-- field has not 1 to 255 bytes, and then changes nothing; DEL_USER takes the name out of the map or
-- reports that it is not there; SET_CONFIG sets one value, the size of the buffers held between its
-- limits, or refuses the key. Another command changes nothing and is answered as unknown.
pub process_request-Processed :
    (g : Shared) (b : Buffer) (r : MgmtReq)
    → Table.IsValid g.users
    → Bounds.IsValid b
    → b.write + 16391 ≤ b.limit
    → (g' : Shared) × (bs : Bytes) × Answered g' b bs (process_request g b r) × Processed g r g' bs
process_request-Processed g b r vu vb room =
    (effect g r, answer g r, process_request_lem g b r vu vb room, answer-Processed g r vu)
