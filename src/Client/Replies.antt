-- ===== src/Client/Replies.antt =====
-- The reading of responses in src/client.c, where `recv` finds one byte at a time.
use tpe2026c1_socks.Client.Listed.{users_read}
use tpe2026c1_socks.Users.{users_init, users_count, User, valid_field, users_add}
use tpe2026c1_socks.Users.Operations.{users_init_lem, users_add_lem}
use tpe2026c1_socks.Client.Transport.{
  Call, ready, interrupted, got, Response, do_request, metrics_printed, names_printed,
  users_printed,
}
use tpe2026c1_socks.Client.Receive.{Enough}
use tpe2026c1_socks.Client.Read.{metrics_read}
use tpe2026c1_socks.Config.{ProxyConfig}
use tpe2026c1_socks.Metrics.{Metrics, metrics_bytes_transferred}
use tpe2026c1_socks.Mgmt.Bytes.{metrics_bytes}
use tpe2026c1_socks.Prelude.{
  List, [], arith, false, refl, some, suc, true, zero, ℕ, ◌++◌, ◌-◌, ◌∷◌, ◌≡◌, Bytes,
}
use tpe2026c1_socks.Mgmt.ListUsers.{list_bytes}
use tpe2026c1_socks.Users.Names.{names}

-- `n` receptions of one byte.
abbrev drips : ℕ → List Call
drips zero = []
drips (suc n) = ready 1 ∷ drips n

abbrev cut : List Call
cut = interrupted ∷ ready 1 ∷ ready 9 ∷ ready 9 ∷ []

drips-Enough : (n : ℕ) → Enough n (drips n)
drips-Enough zero = refl
drips-Enough (suc n) = let e : suc n - 1 ≡ n = omega arith in (omega arith, rw e (drips-Enough n))

abbrev counted : Metrics
counted = record {
  historic_connections = 9;
  current_connections = 2;
  failed_connections = 1;
  bytes_sent = 300;
  bytes_received = 70000;
}

metrics_read_example :
    (r : Response) × (cs' : List Call) × (do_request
        (metrics_bytes counted users_init ++ 1 ∷ [])
        (drips 61)
      ≡ got r (1 ∷ []) cs')
    × (metrics_printed r
        ≡ some (
            9
            ∷ 2
            ∷ metrics_bytes_transferred counted
            ∷ 1
            ∷ users_count users_init
            ∷ 300
            ∷ 70000
            ∷ []))
metrics_read_example =
    metrics_read counted users_init (1 ∷ []) (drips 61) (omega arith) (omega arith) (omega arith)
      (omega arith) (omega arith) users_init_lem.0 (drips-Enough 61)

abbrev settings : ProxyConfig
settings = record {
  io_buffer_size = 8192;
  conn_timeout_secs = 30;
  auth_required = true;
  pop3_sniff = false;
  admin_user = [];
  admin_pass = [];
}

abbrev eve : Bytes
eve = 101 ∷ 118 ∷ 101 ∷ []

abbrev with_eve : List User
with_eve = (users_add users_init (some eve) (some eve)).1

-- An answer to LIST_USERS for a table with one user.
users_read_example :
    (r : Response) × (cs' : List Call) × (do_request (list_bytes (names with_eve) ++ []) (drips 11)
      ≡ got r [] cs')
    × (users_printed r ≡ some (users_count with_eve, names with_eve))
unfolding names users_init users_add valid_field
users_read_example =
    users_read with_eve [] (drips 11)
      (users_add_lem users_init (some eve) (some eve) users_init_lem.0).0 (omega arith)
      (drips-Enough 11)

two_names : names_printed 2 (1 ∷ 97 ∷ 2 ∷ 98 ∷ 99 ∷ []) ≡ (97 ∷ []) ∷ (98 ∷ 99 ∷ []) ∷ []
unfolding names_printed
two_names = refl
