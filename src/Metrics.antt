-- ===== src/Metrics.antt =====
-- src/metrics.c and src/metrics.h: the counters, each a `uint64_t`.
pub mod History
mod Tests
use tpe2026c1_socks.Prelude.{if◌then◌else◌, ltb, ℕ, ◌%◌, ◌+◌, ◌-◌, ◌^◌}

pub record Metrics : Type 0 where
  pub historic_connections : ℕ
  pub current_connections : ℕ
  pub failed_connections : ℕ
  pub bytes_sent : ℕ
  pub bytes_received : ℕ

-- `uint64_t` addition.
abbrev pub add64 : ℕ → ℕ → ℕ
add64 a b = (a + b) % 2 ^ 64

unfoldable pub metrics_init : Metrics
metrics_init = record {
  historic_connections = 0;
  current_connections = 0;
  failed_connections = 0;
  bytes_sent = 0;
  bytes_received = 0;
}

unfoldable pub metrics_connection_opened : Metrics → Metrics
metrics_connection_opened m = record m {
  historic_connections = add64 m.historic_connections 1;
  current_connections = add64 m.current_connections 1;
}

-- The decrement runs only above 0, so it cannot wrap.
unfoldable pub metrics_connection_closed : Metrics → Metrics
metrics_connection_closed m =
    if ltb 0 m.current_connections
    then record m { current_connections = m.current_connections - 1 }
    else m

unfoldable pub metrics_connection_failed : Metrics → Metrics
metrics_connection_failed m = record m { failed_connections = add64 m.failed_connections 1 }

unfoldable pub metrics_add_sent : Metrics → ℕ → Metrics
metrics_add_sent m n = record m { bytes_sent = add64 m.bytes_sent n }

unfoldable pub metrics_add_received : Metrics → ℕ → Metrics
metrics_add_received m n = record m { bytes_received = add64 m.bytes_received n }

unfoldable pub metrics_bytes_transferred : Metrics → ℕ
metrics_bytes_transferred m = add64 m.bytes_sent m.bytes_received
