-- ===== src/Socks5/Keeps/Connecting.antt =====
-- `start_connection` and what calls it.
use tpe2026c1_socks.Net.{only_write, op_noop, Interest}
use tpe2026c1_socks.Prelude.{
  Option, arith, false, inl, inr, length, refl, ℕ, ◌%◌, ◌+◌, ◌^◌, ◌≡◌, ◌≢◌, ◌≤◌, List, [],
  get_elem?_lt, ltb, lt→ltb, none, some, ◌==◌, ◌∷◌, dec_lt, ◌<◌, ap,
}
use tpe2026c1_socks.Socks5.Attempts.{
  placed, start_connection_lem, Tried, none_usable, at_once, under_way,
}
use tpe2026c1_socks.Socks5.Connect.{
  connected_now, register_origin, start_connection, candidates, socksv5_close, unregister_origin,
  open_socket,
}
use tpe2026c1_socks.Socks5.Sound.{
  Access, Alone, Enters, InStage, Listens, Moves, Runs, Sound, Stage, auth_reading, auth_writing,
  connecting, copying, ended, failing, goes_to, hello_reading, hello_writing, number, replying,
  request_reading, resolving_name, stays_in, Paired, go_to, if-Runs,
}
use tpe2026c1_socks.Socks5.State.{
  Address, Attempt, World, rep_success, request_connecting_state, request_write_state, AddrInfo,
  Errno, Kernel, errno_to_reply, other_family, resolved,
}
use tpe2026c1_socks.Socks5.Request.{
  connecting_failed, connecting_write, is_clear, refuse, resolv_block, resolved_to,
}
use tpe2026c1_socks.Socks5.Done.{origin_closed}

enter_connecting :
    (t : Stage) {w : World} → InStage connecting w → Moves t request_connecting_state w
enter_connecting connecting h = stays_in refl h
enter_connecting hello_reading h = goes_to connecting refl (omega arith) h
enter_connecting hello_writing h = goes_to connecting refl (omega arith) h
enter_connecting auth_reading h = goes_to connecting refl (omega arith) h
enter_connecting auth_writing h = goes_to connecting refl (omega arith) h
enter_connecting request_reading h = goes_to connecting refl (omega arith) h
enter_connecting resolving_name h = goes_to connecting refl (omega arith) h
enter_connecting replying h = goes_to connecting refl (omega arith) h
enter_connecting copying h = goes_to connecting refl (omega arith) h
enter_connecting ended h = goes_to connecting refl (omega arith) h
enter_connecting failing h = goes_to connecting refl (omega arith) h

-- A connection with one descriptor, which is not served, and a client who may use the proxy.
pub record Idle (w : World) : Type 0 where
  pub sound : Sound w
  pub settled : w.s.resolving ≡ false
  pub alone : Alone w
  pub quiet : Listens w op_noop
  pub access : Access w

module _ {w : World} (v : Idle w) where
  pub idle_reply : (rep : ℕ) (i : ℕ) → rep ≢ rep_success → Enters replying (placed w rep i)
  idle_reply rep i ne =
      (v.sound, v.settled, (inl v.alone, (op_noop, v.quiet), v.access, λ z. absurd (ne z)))

  refs_two : (w.s.references + 1) % 2 ^ 32 ≡ 2
  refs_two = omega (arith, v.alone.2)

  one_open : (fd : ℕ) → (fd ∷ w.origins) ≡ (fd ∷ [])
  one_open fd = ap (λ ns. fd ∷ ns) v.alone.3

  idle_connected :
      (rep i fd : ℕ) → Enters replying (connected_now (open_socket fd (placed w rep i)) fd)
  unfolding connected_now register_origin open_socket
  idle_connected rep i fd = (
    v.sound,
    v.settled,
    (
      inr (op_noop, (fd, refl, refl, refs_two, one_open fd)),
      (op_noop, v.quiet),
      v.access,
      λ z. (op_noop, (fd, refl, refl, refs_two, one_open fd)),
    ),
  )

  idle_connecting :
      (rep i fd : ℕ)
      → i < length w.s.addrs
      → InStage connecting (register_origin (open_socket fd (placed w rep i)) fd only_write)
  unfolding register_origin open_socket
  idle_connecting rep i fd low =
      (v.sound, v.settled, ((fd, refl, refl, refs_two, one_open fd), v.quiet, v.access, low))

  -- `start_connection` goes on from any other stage than the reply's.
  pub start-Runs :
      (t : Stage) (attempt : ℕ → Address → Attempt)
      → number t ≢ request_write_state
      → w.s.addr_idx ≤ length w.s.addrs
      → Runs t (start_connection attempt w)
  start-Runs t attempt ne h =
      tried t attempt ne (start_connection attempt w)
        (start_connection_lem attempt w (omega (arith, v.sound)) h)
    where
      tried :
          (t : Stage) (attempt : ℕ → Address → Attempt)
          → number t ≢ request_write_state
          → (r : Option (ℕ × World)) → Tried attempt w w.s.addr_idx r
          → Runs t r
      tried t attempt ne r (none_usable rep bad_reply h e) = (
        request_write_state,
        placed w rep (length w.s.addrs),
        e,
        goes_to replying refl ne (idle_reply rep (length w.s.addrs) bad_reply),
      )
      tried t attempt ne r (at_once rep j fd a f h c e) = (
        request_write_state,
        connected_now (open_socket fd (placed w rep j)) fd,
        e,
        goes_to replying refl ne (idle_connected rep j fd),
      )
      tried t attempt ne r (under_way rep j fd a f h c e) = (
        request_connecting_state,
        register_origin (open_socket fd (placed w rep j)) fd only_write,
        e,
        enter_connecting t (idle_connecting rep j fd (get_elem?_lt w.s.addrs j f)),
      )

-- The client hears that the destination was not reached.
pub refuse-Runs :
    (t : Stage) (w : World) (rep : ℕ)
    → number t ≢ request_write_state
    → rep ≢ rep_success
    → Sound w
    → w.s.resolving ≡ false
    → Alone w
    → Listens w op_noop
    → Access w
    → Runs t (refuse w rep)
unfolding refuse
refuse-Runs t w rep ne err v r a l c =
    go_to t replying (record w { s = record (w.s) { reply = rep } }) ne
      (v, r, (inl a, (op_noop, l), c, λ z. absurd (err z)))

length-candidates : (n : ℕ) (ais : List AddrInfo) → n ≤ 16 → length (candidates n ais) + n ≤ 16
unfolding candidates
length-candidates n [] h = omega arith
length-candidates n (resolved a ∷ ais) h = elim (dec_lt n 16) [
  | yes low ↦ rw (lt→ltb _ _ low) (omega (arith, length-candidates (n + 1) ais (omega arith)))
  | no full ↦ let e : ltb n 16 ≡ false = ground arith in rw e (omega arith)
]
length-candidates n (other_family ∷ ais) h = elim (dec_lt n 16) [
  | yes low ↦ rw (lt→ltb _ _ low) (length-candidates n ais h)
  | no full ↦ let e : ltb n 16 ≡ false = ground arith in rw e (omega arith)
]

pub resolv_block-Runs :
    (k : Kernel) (w : World) → InStage resolving_name w → Runs resolving_name (resolv_block k w)
unfolding resolv_block resolved_to
resolv_block-Runs k w (v, r, (a, l, c)) = resolved_as k.addrinfo
  where
    resolved_as :
        (found : Option (List AddrInfo))
        → Runs resolving_name
            (resolved_to k (record w { s = record (w.s) { resolving = false } }) found)
    resolved_as none = refuse-Runs resolving_name _ 4 (omega arith) (omega arith) v refl a l c
    resolved_as (some ais) =
        let few : length (candidates 0 ais) ≤ 16 =
          omega (arith, length-candidates 0 ais (omega arith)) in
        let w' : World = record w {
          s = record (w.s) { resolving = false; addrs = candidates 0 ais; addr_idx = 0 };
        } in
        let v' : Sound w' = (v.0, v.1, v.2, few, v.4) in
        if-Runs resolving_name (length (candidates 0 ais) == 0)
          (λ _. refuse-Runs resolving_name w' 4 (omega arith) (omega arith) v' refl a l c)
          (λ _.
            start-Runs (record { sound = v'; settled = refl; alone = a; quiet = l; access = c })
              resolving_name k.attempt (omega arith) (omega arith))

-- The client's descriptor keeps the connection when the origin's goes.
pub unregister_origin_lem :
    (w : World) {i : Interest}
    → Paired w i
    → unregister_origin w
      ≡ record w { s = record (w.s) { references = 1 }; origin_interest = none; origins = [] }
unfolding unregister_origin socksv5_close
unregister_origin_lem w (fd, e, o, r, q) = rw (origin_closed w e q, r) refl

failed-Idle : (w : World) (e : Errno) → InStage connecting w → Idle (connecting_failed w e)
unfolding connecting_failed
failed-Idle w e (v, r, (p, l, c, low)) =
    rw (unregister_origin_lem (record w { s = record (w.s) { reply = errno_to_reply e } }) p)
      (record { sound = v; settled = r; alone = (refl, refl, refl, refl); quiet = l; access = c })

failed-next :
    (w : World) (e : Errno)
    → InStage connecting w
    → (connecting_failed w e).s.addr_idx ≤ length (connecting_failed w e).s.addrs
unfolding connecting_failed
failed-next w e (v, r, (p, l, c, low)) =
    rw (unregister_origin_lem (record w { s = record (w.s) { reply = errno_to_reply e } }) p)
      (omega (arith, v.3))

pub connecting_write-Runs :
    (k : Kernel) (w : World) → InStage connecting w → Runs connecting (connecting_write k w)
unfolding connecting_write
connecting_write-Runs k w h =
    if-Runs connecting (is_clear k.so_error)
      (λ _.
        let (v, r, (p, l, c, low)) = h in
        go_to connecting replying (record w { s = record (w.s) { reply = rep_success } })
          (omega arith) (v, r, (inr (only_write, p), (op_noop, l), c, λ _. (only_write, p))))
      (λ _.
        start-Runs (failed-Idle w k.so_error h) connecting k.attempt (omega arith)
          (failed-next w k.so_error h))
