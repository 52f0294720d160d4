-- ===== src/Socks5/Attempts.antt =====
-- The loop of `start_connection` of src/socks5.c: it ends, and it tries the candidates in order.
use tpe2026c1_socks.Net.{only_write}
use tpe2026c1_socks.Prelude.{
  Bool, Bool-cases, List, Option, ap, arith, false, get_elem?, get_elem?_in, get_elem?_out, inl,
  inr, length, refl, some, some_inj, suc, sym, true, zero, ℕ, ◌%◌, ◌+◌, ◌<◌, ◌==◌, ◌∙◌, ◌≡◌, ◌≢◌,
  ◌≤◌, dec_lt, ℕ_discrete, ◌∷◌,
}
use tpe2026c1_socks.Socks5.Connect.{
  connect_loop, connected_now, exhausted, failed_candidate, next_candidate, register_origin,
  start_connection, try_candidate, close_fd, close_socket, open_socket,
}
use tpe2026c1_socks.Socks5.State.{
  Address, Attempt, World, connect_failed, connected, errno_to_reply, in_progress, no_socket,
  not_nio, rep_host_unreachable, rep_success, request_connecting_state, request_write_state,
}
use tpe2026c1_socks.Socks5.Done.{close_fd_same}

-- The connection at candidate `i`, with the reply that the attempts so far left.
abbrev pub placed : World → ℕ → ℕ → World
placed w rep i = record w { s = record (w.s) { reply = rep; addr_idx = i } }

-- An attempt that gives the connection a descriptor.
abbrev pub usable : Attempt → Bool
usable (connected fd registers) = registers
usable (in_progress fd registers) = registers
usable _ = false

-- No candidate from `i` to before `j` is usable.
abbrev pub Unusable : (ℕ → Address → Attempt) → List Address → ℕ → ℕ → Type 0
Unusable attempt addrs i j =
    (n : ℕ) (a : Address)
    → i ≤ n
    → n < j
    → get_elem? addrs n ≡ some a
    → usable (attempt n a) ≡ false

-- What the candidates from `i` on lead to: none is usable, and the reply is an error; or the first
-- usable one is connected, and the reply is success; or its connection is under way.
pub data Tried (attempt : ℕ → Address → Attempt) (w : World) (i : ℕ) (r : Option (ℕ × World))
    : Type 0 where
  none_usable :
      (rep : ℕ)
      → rep ≢ rep_success
      → Unusable attempt w.s.addrs i (length w.s.addrs)
      → r ≡ some (request_write_state, placed w rep (length w.s.addrs))
      → Tried attempt w i r
  at_once :
      (rep j fd : ℕ) (a : Address)
      → get_elem? w.s.addrs j ≡ some a
      → Unusable attempt w.s.addrs i j
      → attempt j a ≡ connected fd true
      → r ≡ some (request_write_state, connected_now (open_socket fd (placed w rep j)) fd)
      → Tried attempt w i r
  under_way :
      (rep j fd : ℕ) (a : Address)
      → get_elem? w.s.addrs j ≡ some a
      → Unusable attempt w.s.addrs i j
      → attempt j a ≡ in_progress fd true
      → r
        ≡ some (
          request_connecting_state,
          register_origin (open_socket fd (placed w rep j)) fd only_write,
        )
      → Tried attempt w i r

nothing_between :
    (attempt : ℕ → Address → Attempt) (addrs : List Address) (i : ℕ) → Unusable attempt addrs i i
nothing_between attempt addrs i n a h k e = absurd (omega (arith, h, k))

exhausted_lem :
    (w : World) (rep i : ℕ)
    → (r : ℕ) × (r ≢ rep_success) × (exhausted (placed w rep i) ≡ placed w r i)
unfolding exhausted
exhausted_lem w rep i = elim (Bool-cases (rep == rep_success)) [
  | inl e ↦ (rep_host_unreachable, omega arith, rw e refl)
  | inr e ↦ (rep, ground (arith, e), rw e refl)
]

module _ (attempt : ℕ → Address → Attempt) (w : World) (i : ℕ) (a : Address) where
  more-Unusable :
      (j : ℕ)
      → get_elem? w.s.addrs i ≡ some a
      → usable (attempt i a) ≡ false
      → Unusable attempt w.s.addrs (i + 1) j
      → Unusable attempt w.s.addrs i j
  more-Unusable j found u h n b k l e = elim (ℕ_discrete i n) [
    | yes same ↦
        let e' : get_elem? w.s.addrs i ≡ some b = ap (get_elem? w.s.addrs) same ∙ e in
        let ab : a ≡ b = some_inj (sym found ∙ e') in rw (← same, ← ab) u
    | no other ↦ h n b (omega arith) l e
  ]

  later :
      (r : Option (ℕ × World))
      → get_elem? w.s.addrs i ≡ some a
      → usable (attempt i a) ≡ false
      → Tried attempt w (i + 1) r
      → Tried attempt w i r
  later r found u (none_usable rep ne h e) =
      none_usable rep ne (more-Unusable (length w.s.addrs) found u h) e
  later r found u (at_once rep j fd b f h c e) =
      at_once rep j fd b f (more-Unusable j found u h) c e
  later r found u (under_way rep j fd b f h c e) =
      under_way rep j fd b f (more-Unusable j found u h) c e

  module _ (rep : ℕ) (next : World → Option (ℕ × World)) (low : i < 255)
      (found : get_elem? w.s.addrs i ≡ some a)
      (goes_on : (rep' : ℕ) → Tried attempt w (i + 1) (next (placed w rep' (i + 1)))) where
    skipped :
        (rep' : ℕ)
        → usable (attempt i a) ≡ false
        → Tried attempt w i (next (placed w rep' ((i + 1) % 256)))
    skipped rep' u =
        let e : (i + 1) % 256 ≡ i + 1 = omega arith in rw e (later _ found u (goes_on rep'))

    closed_again : (fd : ℕ) → close_fd fd (fd ∷ w.origins) ≡ w.origins
    closed_again fd = close_fd_same fd w.origins

    try_lem :
        (x : Attempt) → attempt i a ≡ x → Tried attempt w i (try_candidate (placed w rep i) next x)
    unfolding try_candidate failed_candidate next_candidate open_socket close_socket
    try_lem (no_socket e) q = skipped (errno_to_reply e) (ap usable q)
    try_lem (not_nio fd) q = rw (closed_again fd) (skipped rep (ap usable q))
    try_lem (connect_failed fd e) q =
        rw (closed_again fd) (skipped (errno_to_reply e) (ap usable q))
    try_lem (connected fd true) q =
        at_once rep i fd a found (nothing_between attempt w.s.addrs i) q refl
    try_lem (connected fd false) q = rw (closed_again fd) (skipped rep (ap usable q))
    try_lem (in_progress fd true) q =
        under_way rep i fd a found (nothing_between attempt w.s.addrs i) q refl
    try_lem (in_progress fd false) q = rw (closed_again fd) (skipped rep (ap usable q))

connect_loop_lem :
    (attempt : ℕ → Address → Attempt) (fuel : ℕ) (w : World) (rep i : ℕ)
    → length w.s.addrs < 255
    → i ≤ length w.s.addrs
    → length w.s.addrs < fuel + i
    → Tried attempt w i (connect_loop attempt fuel (placed w rep i))
unfolding connect_loop
connect_loop_lem attempt zero w rep i l h f = absurd (omega (arith, h, f))
connect_loop_lem attempt (suc fuel) w rep i l h f = elim (dec_lt i (length w.s.addrs)) [
  | yes inside ↦
      let (a, found) = get_elem?_in w.s.addrs i inside in
      rw (connect_loop, found)
        (try_lem attempt w i a rep (connect_loop attempt fuel) (omega arith) found
          (λ rep'. connect_loop_lem attempt fuel w rep' (i + 1) l (omega arith) (omega arith))
          (attempt i a) refl)
  | no outside ↦
      let e : i ≡ length w.s.addrs = omega arith in
      let (r, ne, q) = exhausted_lem w rep i in
      rw (connect_loop, get_elem?_out w.s.addrs i (omega arith), q)
        (none_usable r ne (λ n a h k. absurd (omega (arith, h, k)))
          (ap (λ j. some (request_write_state, placed w r j)) e))
]

pub start_connection_lem :
    (attempt : ℕ → Address → Attempt) (w : World)
    → length w.s.addrs < 255
    → w.s.addr_idx ≤ length w.s.addrs
    → Tried attempt w w.s.addr_idx (start_connection attempt w)
unfolding start_connection
start_connection_lem attempt w l h =
    connect_loop_lem attempt (suc (length w.s.addrs)) w w.s.reply w.s.addr_idx l h (omega arith)
