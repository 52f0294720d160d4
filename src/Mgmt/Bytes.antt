-- ===== src/Mgmt/Bytes.antt =====
-- The bytes of the responses of src/mgmt.c.
use tpe2026c1_socks.Buffer.Emit.{Emits, emit_byte, emit_none, emit_seq}
use tpe2026c1_socks.Config.{ProxyConfig}
use tpe2026c1_socks.Metrics.{Metrics, metrics_bytes_transferred}
use tpe2026c1_socks.Mgmt.Wire.{
  byte_of, put_from, put_u16, put_u32, put_u64, resp_get_config, resp_header, resp_metrics,
  resp_simple,
}
use tpe2026c1_socks.Prelude.{Bytes, List, [], if◌then◌else◌, suc, zero, ℕ, ◌%◌, ◌*◌, ◌++◌, ◌^◌, ◌∷◌}
use tpe2026c1_socks.Smp.{smp_cmd_get_config, smp_cmd_metrics, smp_ok, smp_version}
use tpe2026c1_socks.Users.{User, users_count}

abbrev pub be16 : ℕ → Bytes
be16 v = byte_of v 8 ∷ v % 256 ∷ []

abbrev pub be32 : ℕ → Bytes
be32 v = byte_of v 24 ∷ byte_of v 16 ∷ byte_of v 8 ∷ byte_of v 0 ∷ []

abbrev pub be_from : ℕ → ℕ → Bytes
be_from zero v = []
be_from (suc i) v = byte_of v (i * 8) ∷ be_from i v

abbrev pub be64 : ℕ → Bytes
be64 v = be_from 8 v

abbrev pub header : ℕ → ℕ → ℕ → Bytes
header cmd status datalen = smp_version ∷ cmd ∷ status ∷ be16 datalen

abbrev pub metrics_bytes : Metrics → List User → Bytes
metrics_bytes m db =
    header smp_cmd_metrics smp_ok 56
    ++ (be64 m.historic_connections
        ++ (be64 m.current_connections
            ++ (be64 (metrics_bytes_transferred m)
                ++ (be64 m.failed_connections
                    ++ (be64 (users_count db) ++ (be64 m.bytes_sent ++ be64 m.bytes_received))))))

abbrev pub config_bytes : ProxyConfig → Bytes
config_bytes c =
    header smp_cmd_get_config smp_ok 9
    ++ (be32 (c.io_buffer_size % 2 ^ 32)
        ++ (be32 c.conn_timeout_secs ++ (if c.auth_required then 1 else 0) ∷ []))

pub emit_u16 : (v : ℕ) → Emits (put_u16 v) (be16 v)
unfolding put_u16
emit_u16 v = emit_seq (emit_byte _) (emit_byte _)

pub emit_u32 : (v : ℕ) → Emits (put_u32 v) (be32 v)
unfolding put_u32
emit_u32 v = emit_seq (emit_byte _) (emit_seq (emit_byte _) (emit_seq (emit_byte _) (emit_byte _)))

emit_from : (n v : ℕ) → Emits (put_from n v) (be_from n v)
unfolding put_from
emit_from zero v = emit_none
emit_from (suc i) v = emit_seq (emit_byte _) (emit_from i v)

pub emit_u64 : (v : ℕ) → Emits (put_u64 v) (be64 v)
unfolding put_u64
emit_u64 v = emit_from 8 v

pub emit_header :
    (cmd status datalen : ℕ) → Emits (resp_header cmd status datalen) (header cmd status datalen)
unfolding resp_header
emit_header cmd status datalen =
    emit_seq (emit_byte _) (emit_seq (emit_byte _) (emit_seq (emit_byte _) (emit_u16 datalen)))

pub emit_simple : (cmd status : ℕ) → Emits (resp_simple cmd status) (header cmd status 0)
unfolding resp_simple
emit_simple cmd status = emit_header cmd status 0

pub emit_metrics : (m : Metrics) (db : List User) → Emits (resp_metrics m db) (metrics_bytes m db)
unfolding resp_metrics
emit_metrics m db = emit_seq (emit_header _ _ _) (
    emit_seq (emit_u64 _) (
      emit_seq (emit_u64 _) (
        emit_seq (emit_u64 _)
          (emit_seq (emit_u64 _) (emit_seq (emit_u64 _) (emit_seq (emit_u64 _) (emit_u64 _)))))))

pub emit_config : (c : ProxyConfig) → Emits (resp_get_config c) (config_bytes c)
unfolding resp_get_config
emit_config c =
    emit_seq (emit_header _ _ _) (emit_seq (emit_u32 _) (emit_seq (emit_u32 _) (emit_byte _)))
