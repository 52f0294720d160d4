-- ===== src/Mgmt/Tests.antt =====
-- The management connection of src/mgmt.c on concrete input.
use tpe2026c1_socks.Users.{users_init}
use tpe2026c1_socks.Users.Operations.{users_init_lem}
use tpe2026c1_socks.Buffer.Bounds
use tpe2026c1_socks.Mgmt.Conn.Reach.{accepted, readable, Reaches-Goes, handle}
use tpe2026c1_socks.Net.{received, RecvResult}
use tpe2026c1_socks.Buffer.{Buffer, buffer_init}
use tpe2026c1_socks.Buffer.Bounds.{buffer_init-IsValid}
use tpe2026c1_socks.Buffer.Emit.{Emits}
use tpe2026c1_socks.Config.{config_init_defaults}
use tpe2026c1_socks.Metrics.{metrics_init}
use tpe2026c1_socks.Mgmt.Conn.{mgmt_new, mgmt_wbuf}
use tpe2026c1_socks.Mgmt.Conn.Safe.{Goes}
use tpe2026c1_socks.Mgmt.ListUsers.{emit_list_users, list_bytes}
use tpe2026c1_socks.Mgmt.Parse.{MgmtReq, no_req, parse_request}
use tpe2026c1_socks.Mgmt.Parse.Bounds.{Bounded, parse_request-Bounded}
use tpe2026c1_socks.Mgmt.Process.{Shared, process_request, set_config}
use tpe2026c1_socks.Mgmt.Process.Answer.{Answered, effect}
use tpe2026c1_socks.Mgmt.Process.Served.{Processed, process_request-Processed}
use tpe2026c1_socks.Mgmt.Wire.{resp_list_users}
use tpe2026c1_socks.Prelude.{
  Bytes, [], arith, length, length-replicate, refl, replicate, ℕ, ◌∷◌, ◌≡◌, ◌≤◌,
}
use tpe2026c1_socks.Smp.{smp_cfg_io_buffer_size, smp_cmd_set_config}
use tpe2026c1_socks.Users.Names.{names}

abbrev start : Shared
start = record { users = users_init; config = config_init_defaults; metrics = metrics_init }

abbrev empty_wbuf : Buffer
empty_wbuf = buffer_init mgmt_wbuf (replicate mgmt_wbuf 0)

empty_wbuf-IsValid : Bounds.IsValid empty_wbuf
empty_wbuf-IsValid =
    buffer_init-IsValid mgmt_wbuf (replicate mgmt_wbuf 0)
      (omega (arith, length-replicate {A = ℕ} mgmt_wbuf 0)) (omega arith)

abbrev set_size : MgmtReq
set_size = record no_req { cmd = smp_cmd_set_config; key = smp_cfg_io_buffer_size; u32 = 100 }

process_request-Processed_example :
    (g' : Shared) × (bs : Bytes) × Answered g' empty_wbuf bs
      (process_request start empty_wbuf set_size)
    × Processed start set_size g' bs
process_request-Processed_example =
    process_request-Processed start empty_wbuf set_size users_init_lem.0 empty_wbuf-IsValid
      (unfold buffer_init in omega arith)

-- The size asked for is raised to the least one.
clamped : (effect start set_size).config.io_buffer_size ≡ 256
unfolding effect set_config config_init_defaults
clamped = refl

emit_list_users_example :
    Emits (resp_list_users users_init) (list_bytes (names users_init))
    × (length (list_bytes (names users_init)) ≤ 16391)
emit_list_users_example = emit_list_users users_init users_init_lem.0

parse_request-Bounded_example : Bounded 6 (parse_request (1 ∷ 2 ∷ 2 ∷ 97 ∷ 98 ∷ 1 ∷ [])).0
parse_request-Bounded_example = parse_request-Bounded (1 ∷ 2 ∷ 2 ∷ 97 ∷ 98 ∷ 1 ∷ [])

-- The first read brings credentials.
abbrev login : RecvResult
login = received (1 ∷ 1 ∷ 97 ∷ 1 ∷ 98 ∷ [])

Reaches-Goes_example : Goes mgmt_new start (handle mgmt_new start (readable login))
unfolding mgmt_new buffer_init
Reaches-Goes_example = Reaches-Goes (readable login) (accepted users_init_lem.0) (refl, omega arith)
