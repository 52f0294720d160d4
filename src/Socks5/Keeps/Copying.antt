-- ===== src/Socks5/Keeps/Copying.antt =====
-- The relay: its invariant, and the bytes of both directions.
use tpe2026c1_socks.Buffer.{buffer_can_read}
use tpe2026c1_socks.Buffer.Queue.{contents}
use tpe2026c1_socks.Net.{Interest, SendFits, SendResult}
use tpe2026c1_socks.Prelude.{
  Bool, Bool-cases, Bytes, Option, [], ap, append-nil, append_assoc, arith, false, if◌then◌else◌,
  inl, inr, not, refl, some, sym, true, ℕ, ◌&&◌, ◌++◌, ◌>>=◌, ◌∙◌, ◌≡◌, ◌==◌,
}
use tpe2026c1_socks.Socks5.Copy.{
  copy_arrival, copy_compute_interests, copy_done, copy_interests, copy_update, pump_to_client,
  pump_to_origin, shut_client, shut_origin,
}
use tpe2026c1_socks.Socks5.Keeps.Requesting.{set_interest_lem}
use tpe2026c1_socks.Socks5.Negotiate.{wrote}
use tpe2026c1_socks.Socks5.Pump.{copy_pump_lem, copy_pump_lem}
use tpe2026c1_socks.Socks5.Request.{client_interested, origin_interested}
use tpe2026c1_socks.Socks5.Sound.{Enters, InStage, Moves, copying, ended, goes_to, stays_in}
use tpe2026c1_socks.Socks5.State.{Socks5, World, copy_state, done_state, set_interest}
use tpe2026c1_socks.Pop3.{pop3_port}

-- What went to each side and what waits for it: `up` came from the client since `w`, `down` from
-- the origin.
abbrev pub Relayed : World → World → Bytes → Bytes → Type 0
Relayed w w' up down =
    (w'.to_origin ++ contents w'.s.read_buffer ≡ (w.to_origin ++ contents w.s.read_buffer) ++ up)
    × (w'.to_client ++ contents w'.s.write_buffer
        ≡ (w.to_client ++ contents w.s.write_buffer) ++ down)

-- A handler of the relay did not abort, moved the bytes and kept the invariant.
abbrev pub Relays : World → Bytes → Bytes → Option (ℕ × World) → Type 0
Relays w up down r =
    (n : ℕ) × (w' : World) × (r ≡ some (n, w')) × Moves copying n w' × Relayed w w' up down

pub unmoved : (w : World) → Relayed w w [] []
unmoved w = (
  sym (append-nil (w.to_origin ++ contents w.s.read_buffer)),
  sym (append-nil (w.to_client ++ contents w.s.write_buffer)),
)

set_interest-some :
    (o : Option Interest) (i : Interest) {j : Interest} → o ≡ some j → (set_interest o i).0 ≡ some i
set_interest-some o i e = ap (λ t. t.0) (set_interest_lem o i e)

-- The connection of the relay with other interests.
abbrev with_interests : World → Interest → Interest → World
with_interests w i j = record w {
  client_interest = (set_interest w.client_interest i).0;
  origin_interest = (set_interest w.origin_interest j).0;
}

interests-InStage :
    (w : World) (i j : Interest) → InStage copying w → InStage copying (with_interests w i j)
interests-InStage w i j (v, r, ((o, (fd, f, p, n, q)), (c, l), a, h)) = (
  v,
  r,
  (
    (j, (fd, f, set_interest-some w.origin_interest j p, n, q)),
    (i, set_interest-some w.client_interest i l),
    a,
    h,
  ),
)

compute_lem :
    (w : World)
    → copy_compute_interests w ≡ with_interests w (copy_interests w.s).0 (copy_interests w.s).1
unfolding copy_compute_interests origin_interested client_interested
compute_lem w = refl

-- The connection whose relay begins.
abbrev fresh : World → World
fresh w = record w {
  s = record (w.s) {
    client_eof = false;
    origin_eof = false;
    client_wr_shut = false;
    origin_wr_shut = false;
    sniff_pop3 = w.s.dest_port == pop3_port && w.g.config.pop3_sniff;
  };
}

pub copy_arrival-Arrives : (w : World) → Enters copying w → InStage copying (copy_arrival w)
unfolding copy_arrival
copy_arrival-Arrives w h =
    let w' : World = fresh w in
    rw (compute_lem w') (interests-InStage w' (copy_interests w'.s).0 (copy_interests w'.s).1 h)

pub shut_origin_lem : (s : Socks5) → (b : Bool) × (shut_origin s ≡ record s { origin_wr_shut = b })
unfolding shut_origin
shut_origin_lem s =
    elim (Bool-cases
      (s.client_eof && not (buffer_can_read s.read_buffer) && not s.origin_wr_shut)) [
        | inl t ↦ (true, rw t refl)
        | inr t ↦ (s.origin_wr_shut, rw t refl)
      ]

pub shut_client_lem : (s : Socks5) → (b : Bool) × (shut_client s ≡ record s { client_wr_shut = b })
unfolding shut_client
shut_client_lem s =
    elim (Bool-cases
      (s.origin_eof && not (buffer_can_read s.write_buffer) && not s.client_wr_shut)) [
        | inl t ↦ (true, rw t refl)
        | inr t ↦ (s.client_wr_shut, rw t refl)
      ]

linked_pair : (w : World) → InStage copying w → Enters ended w
linked_pair w (v, r, (p, l, a, h)) = (v, r, (inr p, l))

update_shut :
    (w0 w : World) (up down : Bytes)
    → InStage copying w
    → Relayed w0 w up down
    → Relays w0 up down
        (some (if copy_done w.s then (done_state, w) else (copy_state, copy_compute_interests w)))
update_shut w0 w up down h m = elim (Bool-cases (copy_done w.s)) [
  | inl t ↦ rw t (done_state, w, refl, goes_to ended refl (omega arith) (linked_pair w h), m)
  | inr t ↦
      rw (t, compute_lem w)
        (
          copy_state,
          with_interests w (copy_interests w.s).0 (copy_interests w.s).1,
          refl,
          stays_in refl (interests-InStage w (copy_interests w.s).0 (copy_interests w.s).1 h),
          m,
        )
]

pub copy_update-Relays :
    (w0 w : World) (up down : Bytes)
    → InStage copying w
    → Relayed w0 w up down
    → Relays w0 up down (some (copy_update w))
unfolding copy_update
copy_update-Relays w0 w up down h m =
    let (x, e) = shut_origin_lem w.s in
    let s1 : Socks5 = record (w.s) { origin_wr_shut = x } in
    let (y, f) = shut_client_lem s1 in
    rw (e, f) (update_shut w0 (record w { s = record s1 { client_wr_shut = y } }) up down h m)

-- Behind `copy_pump`: the end of the connection where it failed, and else `copy_update`.
pumped-Relays :
    (w0 w : World) (up down : Bytes) (failed : Bool)
    → InStage copying w
    → Relayed w0 w up down
    → Relays w0 up down (some (if failed then (done_state, w) else copy_update w))
pumped-Relays w0 w up down true h m =
    (done_state, w, refl, goes_to ended refl (omega arith) (linked_pair w h), m)
pumped-Relays w0 w up down false h m = copy_update-Relays w0 w up down h m

module _ (send : ℕ → ℕ → SendResult) (fits : (i n : ℕ) → SendFits n (send i n)) where
  pub to_origin-Relays :
      (w0 w : World) (up down : Bytes)
      → InStage copying w
      → Relayed w0 w up down
      → Relays w0 up down (pump_to_origin send w)
  unfolding pump_to_origin
  to_origin-Relays w0 w up down (v, r, h) (m, n) =
      let (failed, c, bs, e, p) = copy_pump_lem send v.0 fits in
      let w' : World = record w {
        s = record (w.s) { read_buffer = c };
        to_origin = w.to_origin ++ bs;
      } in
      rw (e, ◌>>=◌)
        (pumped-Relays w0 w' up down failed ((p.valid, v.1, v.2, v.3, v.4), r, h)
          (append_assoc w.to_origin bs (contents c) ∙ ap (λ t. w.to_origin ++ t) p.order ∙ m, n))

  pub to_client-Relays :
      (w0 w : World) (up down : Bytes)
      → InStage copying w
      → Relayed w0 w up down
      → Relays w0 up down (pump_to_client send w)
  unfolding pump_to_client wrote
  to_client-Relays w0 w up down (v, r, h) (m, n) =
      let (failed, c, bs, e, p) = copy_pump_lem send v.1.0 fits in
      let w' : World = record w {
        s = record (w.s) { write_buffer = c };
        to_client = w.to_client ++ bs;
      } in
      rw (e, ◌>>=◌)
        (pumped-Relays w0 w' up down failed
          ((v.0, (p.valid, omega (arith, p.limit, v.1.1)), v.2, v.3, v.4), r, h)
          (m, append_assoc w.to_client bs (contents c) ∙ ap (λ t. w.to_client ++ t) p.order ∙ n))
