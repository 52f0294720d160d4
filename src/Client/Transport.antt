-- ===== src/Client/Transport.antt =====
-- `send_all`, `recv_exact`, `do_request` and the reading of the responses in src/client.c, on a
-- blocking socket. `s` is what the server has sent and the client has not received; a list of calls
-- says what each `recv` finds, so a list that ends leaves the client blocked.
use tpe2026c1_socks.Prelude.{
  if◌then◌else◌, Bool, Bytes, List, Option, [], drop, false, length, ltb, none, not, some, suc,
  take, true, zero, ℕ, ◌%◌, ◌*◌, ◌++◌, ◌+◌, ◌-◌, ◌==◌, ◌^◌, ◌||◌, ◌∷◌, min,
}
use tpe2026c1_socks.Prelude.Memory.{byte_at}
use tpe2026c1_socks.Smp.{smp_ok}
use tpe2026c1_socks.Prelude.Text.{c_string}

-- A `recv` or a `send`: that many bytes can be moved, or -1 with EINTR, or -1 with another error.
pub data Call : Type 0 where
  ready : ℕ → Call
  interrupted broken : Call

-- How a loop over calls ends: with a result, the bytes that wait and the calls that are left, with
-- an error, or blocked.
pub data Ended {ℓ} (A : Type ℓ) : Type ℓ where
  got : A → Bytes → List Call → Ended A
  gave_up blocked : Ended A

abbrev pub and_then {ℓ κ} :
    {A : Type ℓ} {B : Type κ} → Ended A → (A → Bytes → List Call → Ended B) → Ended B
and_then (got a s cs) f = f a s cs
and_then gave_up f = gave_up
and_then blocked f = blocked

-- The loop of `send_all` with `n` bytes left: whether it ended well.
unfoldable pub send_all : ℕ → List Call → Option Bool
send_all n [] = if n == 0 then some true else none
send_all n (c ∷ cs) =
    let again = send_all n cs in
    if n == 0
    then some true
    else elim c [ interrupted ↦ again | broken ↦ some false | ready k ↦ send_all (n - k) cs ]

-- The loop of `recv_exact` with `n` bytes left.
unfoldable pub recv_exact : ℕ → Bytes → List Call → Ended Bytes
recv_exact n s [] = if n == 0 then got [] s [] else blocked
recv_exact n s (c ∷ cs) = if n == 0 then got [] s (c ∷ cs) else elim c [
  | interrupted ↦ recv_exact n s cs
  | broken ↦ gave_up
  | ready k ↦
      let bs = take (min k n) s in
      if length bs == 0
      then gave_up
      else and_then (recv_exact (n - length bs) (drop (length bs) s) cs)
          (λ r s' cs'. got (bs ++ r) s' cs')
]

-- `get_u16`, `get_u32` and `get_u64` at an offset.
unfoldable pub get_u16 : Bytes → ℕ → ℕ
get_u16 p i = byte_at p i * 2 ^ 8 + byte_at p (i + 1)

unfoldable pub get_u32 : Bytes → ℕ → ℕ
get_u32 p i =
    byte_at p i * 2 ^ 24
    + byte_at p (i + 1) * 2 ^ 16
    + byte_at p (i + 2) * 2 ^ 8
    + byte_at p (i + 3)

-- The loop of `get_u64` with `n` bytes left; `v << 8` drops the bits above 64.
unfoldable pub get_from : ℕ → ℕ → Bytes → ℕ
get_from zero v p = v
get_from (suc n) v p = get_from n (v * 2 ^ 8 % 2 ^ 64 + byte_at p 0) (drop 1 p)

unfoldable pub get_u64 : Bytes → ℕ → ℕ
unfolding get_from
get_u64 p i = get_from 8 0 (drop i p)

pub record Response : Type 0 where
  pub cmd : ℕ
  pub status : ℕ
  pub datalen : ℕ
  pub data_bytes : Bytes

-- `do_request` behind its `send_all`; `malloc` succeeds.
unfoldable pub do_request : Bytes → List Call → Ended Response
do_request s cs = and_then (recv_exact 5 s cs) (λ hdr s1 cs1.
    let n = get_u16 hdr 3 in
    and_then (if ltb 0 n then recv_exact n s1 cs1 else got [] s1 cs1) (λ d s2 cs2.
      got (record { cmd = byte_at hdr 1; status = byte_at hdr 2; datalen = n; data_bytes = d }) s2
        cs2))

-- What `cmd_metrics` prints, in order; `none` where it returns 1.
unfoldable pub metrics_printed : Response → Option (List ℕ)
unfolding get_u64
metrics_printed r =
    if not (r.status == smp_ok) || ltb r.datalen 56
    then none
    else some (
        get_u64 r.data_bytes 0
        ∷ get_u64 r.data_bytes 8
        ∷ get_u64 r.data_bytes 16
        ∷ get_u64 r.data_bytes 24
        ∷ get_u64 r.data_bytes 32
        ∷ get_u64 r.data_bytes 40
        ∷ get_u64 r.data_bytes 48
        ∷ [])

-- What `cmd_get_config` prints.
unfoldable pub config_printed : Response → Option (ℕ × ℕ × Bool)
unfolding get_u32
config_printed r =
    if not (r.status == smp_ok) || ltb r.datalen 9
    then none
    else some (get_u32 r.data_bytes 0, get_u32 r.data_bytes 4, not (byte_at r.data_bytes 8 == 0))

-- The loop of `cmd_list_users` with `n` names left, on the data from `off` on.
unfoldable pub names_printed : ℕ → Bytes → List Bytes
names_printed zero p = []
names_printed (suc n) [] = []
names_printed (suc n) (ulen ∷ p) =
    let rest = names_printed n (drop ulen p) in
    if ltb (length p) ulen then [] else c_string (take ulen p) ∷ rest

-- What `cmd_list_users` prints: the number of users and the names.
unfoldable pub users_printed : Response → Option (ℕ × List Bytes)
users_printed r =
    if not (r.status == smp_ok) || ltb r.datalen 2
    then none
    else some (get_u16 r.data_bytes 0, names_printed (get_u16 r.data_bytes 0) (drop 2 r.data_bytes))
