-- ===== src/Metrics/Tests.antt =====
-- The counters of src/metrics.c after five calls.
use tpe2026c1_socks.Metrics.History.{Event, opened, closed, sent, received, after, after-counts}
use tpe2026c1_socks.Metrics.{metrics_bytes_transferred}
use tpe2026c1_socks.Prelude.{List, [], arith, ◌∷◌, ◌≡◌}

abbrev calls : List Event
calls = closed ∷ received 7 ∷ sent 5 ∷ opened ∷ opened ∷ []

after-counts_example :
    ((after calls).historic_connections ≡ 2)
    × ((after calls).current_connections ≡ 1)
    × (metrics_bytes_transferred (after calls) ≡ 12)
after-counts_example = after-counts calls (omega arith) (omega arith)
