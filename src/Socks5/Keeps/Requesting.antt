-- ===== src/Socks5/Keeps/Requesting.antt =====
-- The request and its reply.
use tpe2026c1_socks.Parsers.Run.{run, consume, consume_lem}
use tpe2026c1_socks.Parsers.Request.{
  finished, failed, RequestParser, atyp_domain, atyp_ipv4, atyp_ipv6, cmd_connect,
  request_parser_consume, request_parser_feed,
}
use tpe2026c1_socks.Buffer.{Buffer}
use tpe2026c1_socks.Buffer.Queue.{contents, Holds}
use tpe2026c1_socks.Net.{Interest, RecvFits, only_read, only_write, op_noop}
use tpe2026c1_socks.Prelude.{
  Bool, Option, [], ap, arith, false, if◌then◌else◌, inl, inr, none, not, refl, some, take, true, ℕ,
  ◌-◌, ◌==◌, ◌>>=◌, ◌∷◌, ◌≡◌, ◌≢◌, ◌⊎◌,
}
use tpe2026c1_socks.Prelude.Text.{c_string}
use tpe2026c1_socks.Socks5.Keeps.Connecting.{Idle, start-Runs, refuse-Runs}
use tpe2026c1_socks.Socks5.Reply.{Tells-some, build_reply_lem, reply_bytes}
use tpe2026c1_socks.Socks5.Request.{
  client_interested, connect_to, origin_interested, process_request, quiet_origin, refuse,
  request_input, request_read, request_write_arrival, resolv_arrival, resolve,
}
use tpe2026c1_socks.Socks5.Sockets.{Fills, take_in_lem}
use tpe2026c1_socks.Socks5.Sound.{
  Access, Alone, Enters, Honest, InStage, Linked, Listens, Paired, Runs, Sound, failing, go_to,
  if-Runs, replying, request_reading, resolving_name, stay_in,
}
use tpe2026c1_socks.Socks5.State.{
  Address, Input, Kernel, World, input_ended, no_input, rep_success, set_interest, input,
}

-- `selector_set_interest` on a descriptor that is registered.
pub set_interest_lem :
    (o : Option Interest) (i : Interest) {j : Interest}
    → o ≡ some j
    → set_interest o i ≡ (some i, true)
unfolding set_interest
set_interest_lem none i e = cc
set_interest_lem (some j) i e = refl

pub Listens-now :
    (w : World) (i : Interest) {j : Interest} → Listens w j → Listens (client_interested w i) i
unfolding client_interested
Listens-now w i l = ap (λ t. t.0) (set_interest_lem w.client_interest i l)

pub resolv_arrival-Arrives :
    (w : World) → Enters resolving_name w → InStage resolving_name (resolv_arrival w)
unfolding resolv_arrival client_interested
resolv_arrival-Arrives w (v, r, (a, (i, l), c)) =
    (v, r, (a, ap (λ t. t.0) (set_interest_lem w.client_interest op_noop l), c))

-- The origin is left alone while the reply goes out.
abbrev Hushed : World → Type 0
Hushed w = Alone w ⊎ Paired w op_noop

hushed :
    (w : World)
    → Linked w
    → (o : Option Interest) × (quiet_origin w ≡ record w { origin_interest = o })
      × Hushed (record w { origin_interest = o })
unfolding quiet_origin origin_interested
hushed w (inl (f, o, r, q)) = (w.origin_interest, rw f refl, inl (f, o, r, q))
hushed w (inr (i, (fd, f, o, r, q))) =
    let e = set_interest_lem w.origin_interest op_noop o in
    (some op_noop, rw (f, e) refl, inr (fd, f, refl, r, q))

still-Honest :
    (w : World) (o : Option Interest)
    → Honest w
    → Hushed (record w { origin_interest = o })
    → Honest (record w { origin_interest = o })
still-Honest w o h (inr p) e = (op_noop, p)
still-Honest w o h (inl (f, q, r, n)) e =
    let (i, (fd, g, s, t, m)) = h e in absurd (omega (arith, r, t))

pub request_write_arrival-Arrives :
    (k : Kernel) (w : World)
    → Enters replying w
    → (w' : World) × (request_write_arrival k w ≡ some w') × InStage replying w'
unfolding request_write_arrival
request_write_arrival-Arrives k w (v, r, (n, (i, l), c, h)) =
    let (wb, e, tells) = build_reply_lem k.sockname w w.s.reply v.1.0 v.1.1 in
    let (local, b) =
      Tells-some w.s w.s.reply k.sockname (λ l. Holds w.s.write_buffer wb (reply_bytes w.s.reply l))
        tells in
    let w1 : World = record w { s = record (w.s) { write_buffer = wb } } in
    let (o, q, z) = hushed w1 n in
    let w2 : World = record w1 { origin_interest = o } in
    (
      client_interested w2 only_write,
      rw (e, ◌>>=◌, q) refl,
      unfold client_interested in
          (
            (v.0, (b.valid, omega (arith, b.limit, v.1.1)), v.2, v.3, v.4),
            r,
            (
              z,
              ap (λ t. t.0) (set_interest_lem w.client_interest only_write l),
              c,
              still-Honest w1 o h z,
            ),
          ),
    )

-- The destination of a request is tried, resolved or refused.
connect_to-Runs :
    (k : Kernel) (w : World) (a : Address) → Idle w → Runs request_reading (connect_to k w a)
unfolding connect_to
connect_to-Runs k w a v =
    let w' : World = record w {
      s = record (w.s) { addrs = a ∷ []; addr_idx = 0; dest_host = k.ntop a };
    } in
    start-Runs {w = w'}
      (record {
        sound = (v.sound.0, v.sound.1, v.sound.2, omega arith, v.sound.4);
        settled = v.settled;
        alone = v.alone;
        quiet = v.quiet;
        access = v.access;
      })
      request_reading k.attempt (omega arith) (omega arith)

resolve-Runs : (k : Kernel) (w : World) → Idle w → Runs request_reading (resolve k w)
unfolding resolve
resolve-Runs k w v =
    if-Runs request_reading k.thread_starts
      (λ _.
        go_to request_reading resolving_name
          (record w {
            s = record (w.s) { dest_host = take 255 (c_string w.s.request.addr); resolving = true };
          })
          (omega arith) (v.sound, refl, (v.alone, (op_noop, v.quiet), v.access)))
      (λ _.
        refuse-Runs request_reading
          (record w { s = record (w.s) { dest_host = take 255 (c_string w.s.request.addr) } }) 1
          (omega arith) (omega arith) v.sound v.settled v.alone v.quiet v.access)

abbrev towards : World → World
towards w = record w { s = record (w.s) { dest_port = w.s.request.port } }

same-Idle : (w : World) → Idle w → Idle (towards w)
same-Idle w v = record {
  sound = v.sound;
  settled = v.settled;
  alone = v.alone;
  quiet = v.quiet;
  access = v.access;
}

process_request-Runs :
    (k : Kernel) (w : World) → Idle w → Runs request_reading (process_request k w)
unfolding process_request
process_request-Runs k w v =
    if-Runs request_reading (not (w.s.request.cmd == cmd_connect))
      (λ _.
        refuse-Runs request_reading w 7 (omega arith) (omega arith) v.sound v.settled v.alone
          v.quiet v.access)
      (λ _.
        if-Runs request_reading (w.s.request.atyp == atyp_ipv4)
          (λ _. connect_to-Runs k (towards w) _ (same-Idle w v))
          (λ _.
            if-Runs request_reading (w.s.request.atyp == atyp_ipv6)
              (λ _. connect_to-Runs k (towards w) _ (same-Idle w v))
              (λ _.
                if-Runs request_reading (w.s.request.atyp == atyp_domain)
                  (λ _. resolve-Runs k (towards w) (same-Idle w v))
                  (λ _.
                    refuse-Runs request_reading (towards w) 8 (omega arith) (omega arith) v.sound
                      v.settled v.alone v.quiet v.access))))

quiet_client :
    (w : World) {i : Interest}
    → Sound w
    → w.s.resolving ≡ false
    → Alone w
    → Listens w i
    → Access w
    → Idle (client_interested w op_noop)
unfolding client_interested
quiet_client w v r a l c = record {
  sound = v;
  settled = r;
  alone = a;
  quiet = ap (λ t. t.0) (set_interest_lem w.client_interest op_noop l);
  access = c;
}

Idle-refuse :
    (w : World) (rep : ℕ) → rep ≢ rep_success → Idle w → Runs request_reading (refuse w rep)
Idle-refuse w rep ne v =
    refuse-Runs request_reading w rep (omega arith) ne v.sound v.settled v.alone v.quiet v.access

request_input-Runs :
    (k : Kernel) (w : World) (i : Input)
    → InStage request_reading w
    → Fills w.s.read_buffer k.recv i
    → Runs request_reading (request_input k w i)
unfolding request_input
request_input-Runs k w no_input h f = stay_in request_reading w h
request_input-Runs k w input_ended (v, r, (a, l, c)) f =
    go_to request_reading failing w (omega arith) (v, r, (inl a, (only_read, l)))
request_input-Runs k w (input rb) (v, r, (a, l, c)) (bs, got, filled) =
    let (rb', e, left) =
      consume_lem request_parser_feed finished failed w.s.request false filled.valid in
    let (p, rest, done) = run request_parser_feed finished w.s.request (contents rb) in
    let w' : World = record w { s = record (w.s) { request = p; read_buffer = rb' } } in
    let v' : Sound w' = (left.valid, v.1, v.2, v.3, v.4) in
    rw (consumed_as e, ◌>>=◌)
      (if-Runs request_reading (not done) (λ _. stay_in request_reading w' (v', r, (a, l, c)))
        (λ _.
          if-Runs request_reading (if done then failed p else false)
            (λ _. Idle-refuse _ 1 (omega arith) (quiet_client w' v' r a l c))
            (λ _. process_request-Runs k _ (quiet_client w' v' r a l c))))
  where
    consumed_as :
        {x : Option (Bool × RequestParser × Buffer × Bool)}
        → consume request_parser_feed finished failed w.s.request rb false ≡ x
        → request_parser_consume w.s.request rb false ≡ x
    consumed_as e = unfold request_parser_consume in e

pub request_read-Runs :
    (k : Kernel) (w : World)
    → InStage request_reading w
    → RecvFits (w.s.read_buffer.limit - w.s.read_buffer.write) k.recv
    → Runs request_reading (request_read k w)
unfolding request_read
request_read-Runs k w h f =
    let (i, e, fills) = take_in_lem k.recv h.0.0 f in
    rw (e, ◌>>=◌) (request_input-Runs k w i h fills)
