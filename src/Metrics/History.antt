-- ===== src/Metrics/History.antt =====
-- What the counters say of the calls that were made since the start.
use tpe2026c1_socks.Metrics.{
  Metrics, metrics_add_received, metrics_add_sent, metrics_bytes_transferred,
  metrics_connection_closed, metrics_connection_failed, metrics_connection_opened, metrics_init,
}
use tpe2026c1_socks.Prelude.{List, [], arith, refl, suc, ℕ, ◌%◌, ◌+◌, ◌-◌, ◌<◌, ◌^◌, ◌∷◌, ◌≡◌, ◌≤◌}

pub data Event : Type 0 where
  opened closed failed : Event
  sent : ℕ → Event
  received : ℕ → Event

unfoldable pub count_event : Metrics → Event → Metrics
count_event m opened = metrics_connection_opened m
count_event m closed = metrics_connection_closed m
count_event m failed = metrics_connection_failed m
count_event m (sent n) = metrics_add_sent m n
count_event m (received n) = metrics_add_received m n

-- The latest event stands first.
unfoldable pub after : List Event → Metrics
unfolding count_event
after [] = metrics_init
after (e ∷ es) = count_event (after es) e

abbrev pub opens : List Event → ℕ
opens [] = 0
opens (opened ∷ es) = suc (opens es)
opens (e ∷ es) = opens es

abbrev pub closes : List Event → ℕ
closes [] = 0
closes (closed ∷ es) = suc (closes es)
closes (e ∷ es) = closes es

abbrev pub moved : List Event → ℕ
moved [] = 0
moved (sent n ∷ es) = n + moved es
moved (received n ∷ es) = n + moved es
moved (e ∷ es) = moved es

-- No connection is closed before it was opened.
abbrev pub Balanced : List Event → Type 0
Balanced [] = Unit
Balanced (e ∷ es) = (closes (e ∷ es) ≤ opens (e ∷ es)) × Balanced es

Balanced-le : (es : List Event) → Balanced es → closes es ≤ opens es
Balanced-le [] h = omega arith
Balanced-le (e ∷ es) h = h.0

-- After fewer than 2 ^ 64 openings, with no closing before its opening, the counters of
-- connections are the openings and the openings less the closings, and the bytes transferred are
-- those of all `sent` and `received` calls, mod 2 ^ 64.
pub after-counts :
    (es : List Event)
    → Balanced es
    → opens es < 2 ^ 64
    → ((after es).historic_connections ≡ opens es)
      × ((after es).current_connections ≡ opens es - closes es)
      × (metrics_bytes_transferred (after es) ≡ moved es % 2 ^ 64)
unfolding after metrics_init metrics_connection_opened metrics_connection_closed
    metrics_connection_failed metrics_add_sent metrics_add_received metrics_bytes_transferred
after-counts [] h k = (refl, refl, refl)
after-counts (opened ∷ es) h k = ground (arith, after-counts es h.1, Balanced-le es h.1)
after-counts (closed ∷ es) h k = ground (arith, after-counts es h.1)
after-counts (failed ∷ es) h k = ground (arith, after-counts es h.1)
after-counts (sent n ∷ es) h k = ground (arith, after-counts es h.1)
after-counts (received n ∷ es) h k = ground (arith, after-counts es h.1)
