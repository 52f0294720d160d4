-- ===== src/Socks5/Accept.antt =====
-- A new connection of src/socks5.c is sound, and the pool stays what it is.
use tpe2026c1_socks.Buffer.Bounds.{buffer_init-IsValid}
use tpe2026c1_socks.Config.{ProxyConfig, config_min_buffer}
use tpe2026c1_socks.Prelude.{
  ==_iff, All, Bool-cases, Bytes, Option, arith, inl, inr, length, none, refl, some, some_inj, sym,
  ℕ, ◌<◌, ◌==◌, ◌>>=◌, ◌^◌, ◌≡◌, ◌≤◌, List, [], ◌∷◌, subst, Bool, Option-cases, false,
  if◌then◌else◌, length-replicate, ltb, lt→ltb, true, dec_lt, not,
}
use tpe2026c1_socks.Socks5.Life.{
  Pool, Pooled, allocated, initial, max_pool, storages_of, wanted_size, Arrival, take_pooled,
  accepted_as, recycle, accept_from, new_world, socks5_new, socksv5_passive_accept,
}
use tpe2026c1_socks.Socks5.State.{Address, Socks5, World}
use tpe2026c1_socks.Buffer.{buffer_init}
use tpe2026c1_socks.Metrics.{metrics_connection_opened}
use tpe2026c1_socks.Mgmt.Process.{Shared}
use tpe2026c1_socks.Pop3.{line_size, pop3_sniffer_init}
use tpe2026c1_socks.Socks5.Sound.{InStage, hello_reading}

-- Storages of `n` bytes each.
abbrev pub Measures : Bytes × Bytes × ℕ → Type 0
Measures x = (length x.0 ≡ x.2) × (length x.1 ≡ x.2) × (x.2 < 2 ^ 64)

-- A pooled connection's storages have the size that is kept with them.
abbrev pub Sized : Pooled → Type 0
Sized p = (r w : Bytes) → p.raw ≡ some (r, w) → Measures (r, w, p.buffer_size)

pub record IsValid (pool : Pool) : Type 0 where
  pub counted : pool.pool_size ≡ length pool.entries
  pub bounded : pool.pool_size ≤ max_pool
  pub sized : All Sized pool.entries

-- What `malloc` promises: as many bytes as were asked for.
abbrev pub Gives : ℕ → Option Bytes → Type 0
Gives n none = Unit
Gives n (some bs) = (length bs ≡ n) × (n < 2 ^ 64)

wanted_size-le : (cfg : ProxyConfig) → config_min_buffer ≤ wanted_size cfg
unfolding wanted_size
wanted_size-le cfg = ground arith

allocated_lem :
    (want : ℕ) (m : Option Bytes × Option Bytes) (x : Bytes × Bytes × ℕ)
    → Gives want m.0
    → Gives want m.1
    → allocated want m ≡ some x
    → Measures x × (x.2 ≡ want)
unfolding allocated
allocated_lem want (none, w) x g h e = absurd (cc)
allocated_lem want (some r, none) x g h e = absurd (cc)
allocated_lem want (some r, some w) x g h e =
    subst (λ t. Measures t × (t.2 ≡ want)) (some_inj e) ((g.0, h.0, g.1), refl)

storages_lem :
    (want : ℕ) (raw : Option (Bytes × Bytes)) (size : ℕ) (m : Option Bytes × Option Bytes)
    (x : Bytes × Bytes × ℕ)
    → Sized (record { raw = raw; buffer_size = size })
    → Gives want m.0
    → Gives want m.1
    → storages_of want raw size m ≡ some x
    → Measures x × (x.2 ≡ want)
unfolding storages_of
storages_lem want none size m x z g h e = allocated_lem want m x g h e
storages_lem want (some (r, w)) size m x z g h e = elim (Bool-cases (size == want)) [
  | inl same ↦
      let q : (r, w, size) ≡ x = some_inj (rw same at e) in
      subst (λ t. Measures t × (t.2 ≡ want)) q (z r w refl, (==_iff size want).0 same)
  | inr other ↦ allocated_lem want m x g h (rw other at e)
]

taken :
    (a : Arrival) (ps : List Pooled) (n : ℕ)
    → IsValid (record { entries = ps; pool_size = n })
    → IsValid (take_pooled a ps n).1 × ((p : Pooled) → (take_pooled a ps n).0 ≡ some p → Sized p)
unfolding take_pooled
taken a [] n v = (v, λ p. new_pooled a.callocs)
  where
    new_pooled :
        (b : Bool) {p : Pooled}
        → (if b then some (record { raw = none; buffer_size = 0 }) else none) ≡ some p
        → Sized p
    new_pooled true e = subst Sized (some_inj e) (λ r w f. absurd (cc))
    new_pooled false e = absurd (cc)
taken a (p ∷ ps) n v = (
  record {
    counted = omega (arith, v.counted, v.bounded);
    bounded = omega (arith, v.counted, v.bounded);
    sized = v.sized.1;
  },
  λ q e. subst Sized (some_inj e) v.sized.0,
)

-- A new connection has storages of one size, not below the least one.
abbrev pub Made : Address → Socks5 → Type 0
Made addr s =
    (x : Bytes × Bytes × ℕ) × (s ≡ initial addr x) × Measures x × (config_min_buffer ≤ x.2)

Made-from :
    (a : Arrival) (addr : Address) (cfg : ProxyConfig) (o : Option Pooled) {s : Socks5}
    → ((p : Pooled) → o ≡ some p → Sized p)
    → Gives (wanted_size cfg) a.mallocs.0
    → Gives (wanted_size cfg) a.mallocs.1
    → (do
      q ← o
      m ← storages_of (wanted_size cfg) q.raw q.buffer_size a.mallocs
      some (initial addr m))
      ≡ some s
    → Made addr s
Made-from a addr cfg none z g h e = absurd (cc)
Made-from a addr cfg (some q) z g h e =
    elim (Option-cases (storages_of (wanted_size cfg) q.raw q.buffer_size a.mallocs)) [
      | inl missing ↦ absurd (cc (rw (missing, ◌>>=◌) at e))
      | inr (x, found) ↦
          let (m, n) =
            storages_lem (wanted_size cfg) q.raw q.buffer_size a.mallocs x (z q refl) g h found in
          (x, sym (some_inj (rw (found, ◌>>=◌) at e)), m, omega (arith, n, wanted_size-le cfg))
    ]

pub initial-InStage :
    (addr : Address) (x : Bytes × Bytes × ℕ) (g : Shared)
    → Measures x
    → config_min_buffer ≤ x.2
    → InStage hello_reading (new_world (initial addr x) g)
unfolding initial pop3_sniffer_init
initial-InStage addr (r, w, n) g m h = (
  (
    buffer_init-IsValid n r (omega (arith, m.0)) m.2,
    (buffer_init-IsValid n w (omega (arith, m.1)) m.2, unfold buffer_init in h),
    (
      [],
      record {
        array = length-replicate {A = ℕ} line_size 0;
        bounded = omega arith;
        read = inl (refl, refl, refl);
      },
    ),
    omega arith,
    refl,
  ),
  refl,
  ((refl, refl, refl, refl), refl),
)

recycle-IsValid :
    (addr : Address) (x : Bytes × Bytes × ℕ) (pool : Pool)
    → Measures x
    → IsValid pool
    → IsValid (recycle pool (initial addr x))
unfolding recycle initial buffer_init
recycle-IsValid addr x pool m v = elim (dec_lt pool.pool_size max_pool) [
  | yes room ↦ rw (lt→ltb _ _ room) (record {
    counted = omega (arith, v.counted);
    bounded = omega arith;
    sized = (λ r w e. subst (λ t. Measures (t.0, t.1, x.2)) (some_inj e) m, v.sized);
  })
  | no full ↦ let e : ltb pool.pool_size max_pool ≡ false = ground arith in rw e v
]

-- What accepting leaves: a sound pool, and either no connection and the globals as they were, or a
-- sound new connection, counted once.
abbrev pub Opens : Shared → Option World × Shared × Pool → Type 0
Opens g (none, g', pool') = IsValid pool' × (g' ≡ g)
Opens g (some w, g', pool') =
    IsValid pool'
    × (InStage hello_reading w
        × (g' ≡ record g { metrics = metrics_connection_opened g.metrics })
        × (w.g ≡ g'))

registered_lem :
    (a : Arrival) (g : Shared) (addr : Address) (x : Bytes × Bytes × ℕ) (pool : Pool)
    → IsValid pool
    → Measures x
    → config_min_buffer ≤ x.2
    → Opens g (accepted_as a g (some (initial addr x), pool))
unfolding accepted_as
registered_lem a g addr x pool v m n = elim (Bool-cases a.registers) [
  | inl yes_it_is ↦
      let g' : Shared = record g { metrics = metrics_connection_opened g.metrics } in
      rw yes_it_is (v, (initial-InStage addr x g' m n, refl, refl))
  | inr no_it_is_not ↦ rw no_it_is_not (recycle-IsValid addr x pool m v, refl)
]

accepted_as_lem :
    (a : Arrival) (g : Shared) (addr : Address) (r : Option Socks5 × Pool)
    → IsValid r.1
    → ((s : Socks5) → r.0 ≡ some s → Made addr s)
    → Opens g (accepted_as a g r)
unfolding accepted_as
accepted_as_lem a g addr (none, pool) v h = (v, refl)
accepted_as_lem a g addr (some s, pool) v h =
    let (x, e, m, n) = h s refl in
    subst (λ t. Opens g (accepted_as a g (some t, pool))) (sym e)
      (registered_lem a g addr x pool v m n)

accept_from_lem :
    (a : Arrival) (g : Shared) (pool : Pool) (o : Option Address)
    → IsValid pool
    → Gives (wanted_size g.config) a.mallocs.0
    → Gives (wanted_size g.config) a.mallocs.1
    → Opens g (accept_from a g pool o)
unfolding accept_from socks5_new
accept_from_lem a g pool none v m n = (v, refl)
accept_from_lem a g pool (some addr) v m n = elim (Bool-cases (not a.sets_nio)) [
  | inr sets ↦
      let (rest, sized) = taken a pool.entries pool.pool_size v in
      rw sets (
        accepted_as_lem a g addr (socks5_new a addr g.config pool) rest (λ s e.
          Made-from a addr g.config (take_pooled a pool.entries pool.pool_size).0 sized m n e))
  | inl fails ↦ rw fails (v, refl)
]

-- `socksv5_passive_accept` with a sound pool, whichever of its calls fail: the pool stays sound,
-- with its count the number of its entries and at most 128, and each entry's storages of the size
-- noted with it. Where there is no new connection the globals stay; a new connection is in the
-- greeting's state with everything sound, and is counted once.
pub socksv5_passive_accept_lem :
    (a : Arrival) (g : Shared) (pool : Pool)
    → IsValid pool
    → Gives (wanted_size g.config) a.mallocs.0
    → Gives (wanted_size g.config) a.mallocs.1
    → Opens g (socksv5_passive_accept a g pool)
unfolding socksv5_passive_accept
socksv5_passive_accept_lem a g pool v m n = accept_from_lem a g pool a.accepts v m n
