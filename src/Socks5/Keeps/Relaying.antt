-- ===== src/Socks5/Keeps/Relaying.antt =====
-- What a handler of the relay makes of the bytes that it receives.
use tpe2026c1_socks.Buffer.Bounds.{IsValid, write_count}
use tpe2026c1_socks.Buffer.{Buffer, buffer_write_adv}
use tpe2026c1_socks.Buffer.Queue.{Holds, contents, write_adv_lem}
use tpe2026c1_socks.Metrics.{metrics_add_received, metrics_add_sent}
use tpe2026c1_socks.Net.{RecvFits, RecvResult, SendFits, recv_again, recv_failed, received}
use tpe2026c1_socks.Pop3.{Sniffer}
use tpe2026c1_socks.Pop3.Line.{HoldsLine}
use tpe2026c1_socks.Pop3.Sound.{feed-HoldsLine}
use tpe2026c1_socks.Prelude.{
  ==_iff, Bool-cases, Bytes, List, [], ap, append_assoc, arith, inl, inr, length, pos, refl, some,
  sym, true, ℕ, ◌++◌, ◌-◌, ◌==◌, ◌>>=◌, ◌∙◌, ◌∷◌, ◌≡◌, ◌≤◌, subst,
}
use tpe2026c1_socks.Prelude.Memory.{splice, store, store_in}
use tpe2026c1_socks.Socks5.Copy.{
  Side, client_bytes, client_data, client_ended, client_side, copy_read, copy_write,
  log_credentials, origin_bytes, origin_data, origin_ended, origin_side, sniff,
}
use tpe2026c1_socks.Socks5.Keeps.Copying.{
  Relays, copy_update-Relays, to_client-Relays, to_origin-Relays, unmoved,
}
use tpe2026c1_socks.Socks5.Sound.{InStage, Sound, copying}
use tpe2026c1_socks.Socks5.State.{Kernel, LogEntry, World}

store_advance :
    (b : Buffer) (bs : Bytes)
    → IsValid b
    → length bs ≤ b.limit - b.write
    → (c : Buffer) × (store b.storage b.write bs ≡ some (splice b.storage b.write bs))
      × (buffer_write_adv (record b { storage = splice b.storage b.write bs }) (pos (length bs))
          ≡ some c)
      × Holds b c (contents b ++ bs)
store_advance b bs v h =
    let (c, e, k, _) = write_adv_lem bs v (omega (arith, v)) in
    (c, store_in b.storage b.write bs (omega (arith, v)), e, k)

-- The sniffer sees the bytes, and changes nothing else but the log.
sniff_lem :
    (w : World) (bs : Bytes)
    → Sound w
    → (p : Sniffer) × (l : List LogEntry) × (sniff w bs
        ≡ some (record w { s = record (w.s) { pop3 = p }; log = l }))
      × ((cur : Bytes) × HoldsLine p cur)
unfolding sniff
sniff_lem w bs v = elim (Bool-cases w.s.sniff_pop3) [
  | inl t ↦
      let (p, out, e, keeps) = feed-HoldsLine bs w.s.pop3 v.2.0 v.2.1 in
      (p, w.log ++ log_credentials w.s out, rw (t, e, ◌>>=◌) refl, keeps)
  | inr t ↦ (w.s.pop3, w.log, rw t refl, v.2)
]

-- What the call of `recv` brought.
abbrev pub brought : RecvResult → Bytes
brought (received bs) = bs
brought _ = []

no_bytes : (bs : Bytes) → length bs ≤ 0 → bs ≡ []
no_bytes [] h = refl
no_bytes (b ∷ bs) h = absurd (omega (arith, h))

-- The end of the stream on one side.
client_ended-Relays : (w : World) → InStage copying w → Relays w [] [] (some (client_ended w))
unfolding client_ended
client_ended-Relays w h =
    copy_update-Relays w (record w { s = record (w.s) { client_eof = true } }) [] [] h (unmoved w)

origin_ended-Relays : (w : World) → InStage copying w → Relays w [] [] (some (origin_ended w))
unfolding origin_ended
origin_ended-Relays w h =
    copy_update-Relays w (record w { s = record (w.s) { origin_eof = true } }) [] [] h (unmoved w)

module _ (k : Kernel) (fits : (i n : ℕ) → SendFits n (k.send i n)) where
  client_bytes-Relays :
      (w : World) (bs : Bytes)
      → InStage copying w
      → length bs ≤ w.s.read_buffer.limit - w.s.read_buffer.write
      → Relays w bs [] (client_bytes k w w.s.read_buffer.write bs)
  unfolding client_bytes
  client_bytes-Relays w bs (v, r, h) room =
      let (c, s, e, b) = store_advance w.s.read_buffer bs v.0 room in
      let w1 : World = record w {
        s = record (w.s) { read_buffer = c };
        g = record (w.g) { metrics = metrics_add_sent w.g.metrics (length bs) };
      } in
      let v1 : Sound w1 = (b.valid, v.1, v.2, v.3, v.4) in
      let (p, l, q, keeps) = sniff_lem w1 bs v1 in
      let w2 : World = record w1 { s = record (w1.s) { pop3 = p }; log = l } in
      rw (s, ◌>>=◌, e, q)
        (to_origin-Relays k.send fits w w2 bs [] ((b.valid, v.1, keeps, v.3, v.4), r, h)
          (
            ap (λ t. w.to_origin ++ t) b.holds
                ∙ sym (append_assoc w.to_origin (contents w.s.read_buffer) bs),
            (unmoved w).1,
          ))

  origin_bytes-Relays :
      (w : World) (bs : Bytes)
      → InStage copying w
      → length bs ≤ w.s.write_buffer.limit - w.s.write_buffer.write
      → Relays w [] bs (origin_bytes k w w.s.write_buffer.write bs)
  unfolding origin_bytes
  origin_bytes-Relays w bs (v, r, h) room =
      let (c, s, e, b) = store_advance w.s.write_buffer bs v.1.0 room in
      let w1 : World = record w {
        s = record (w.s) { write_buffer = c };
        g = record (w.g) { metrics = metrics_add_received w.g.metrics (length bs) };
      } in
      rw (s, ◌>>=◌, e)
        (to_client-Relays k.send fits w w1 [] bs
          ((v.0, (b.valid, omega (arith, b.limit, v.1.1)), v.2, v.3, v.4), r, h)
          (
            (unmoved w).0,
            ap (λ t. w.to_client ++ t) b.holds
                ∙ sym (append_assoc w.to_client (contents w.s.write_buffer) bs),
          ))

  -- Data for the origin, as `copy_read` takes it from the client.
  client_data-Relays :
      (w : World) (r : RecvResult)
      → InStage copying w
      → RecvFits (w.s.read_buffer.limit - w.s.read_buffer.write) r
      → Relays w (brought r) [] (client_data k w w.s.read_buffer.write r)
  unfolding client_data
  client_data-Relays w recv_again h f = copy_update-Relays w w [] [] h (unmoved w)
  client_data-Relays w recv_failed h f = client_ended-Relays w h
  client_data-Relays w (received bs) h f = elim (Bool-cases (length bs == 0)) [
    | inl ends ↦
        let nothing : bs ≡ [] = no_bytes bs (ground (arith, ends)) in
        rw (ends, nothing) (client_ended-Relays w h)
    | inr comes ↦ rw comes (client_bytes-Relays w bs h f.0)
  ]

  origin_data-Relays :
      (w : World) (r : RecvResult)
      → InStage copying w
      → RecvFits (w.s.write_buffer.limit - w.s.write_buffer.write) r
      → Relays w [] (brought r) (origin_data k w w.s.write_buffer.write r)
  unfolding origin_data
  origin_data-Relays w recv_again h f = copy_update-Relays w w [] [] h (unmoved w)
  origin_data-Relays w recv_failed h f = origin_ended-Relays w h
  origin_data-Relays w (received bs) h f = elim (Bool-cases (length bs == 0)) [
    | inl ends ↦
        let nothing : bs ≡ [] = no_bytes bs (ground (arith, ends)) in
        rw (ends, nothing) (origin_ended-Relays w h)
    | inr comes ↦ rw comes (origin_bytes-Relays w bs h f.0)
  ]

-- The space that is offered to `recv` for a descriptor, and what it brings in each direction.
abbrev pub space : Side → World → ℕ
space client_side w = w.s.read_buffer.limit - w.s.read_buffer.write
space origin_side w = w.s.write_buffer.limit - w.s.write_buffer.write

abbrev pub upwards : Side → RecvResult → Bytes
upwards client_side r = brought r
upwards origin_side r = []

abbrev pub downwards : Side → RecvResult → Bytes
downwards client_side r = []
downwards origin_side r = brought r

brought_none : (r : RecvResult) → RecvFits 0 r → brought r ≡ []
brought_none (received bs) f = no_bytes bs f.0
brought_none recv_again f = refl
brought_none recv_failed f = refl

-- `copy_read` on a sound connection, whatever `recv` and `send` return, does not abort and keeps
-- the connection sound: in each direction, the bytes that were sent followed by those that wait are
-- the earlier ones followed by exactly what `recv` brought, in order.
pub copy_read-Relays :
    (side : Side) (k : Kernel) (w : World)
    → InStage copying w
    → RecvFits (space side w) k.recv
    → ((i n : ℕ) → SendFits n (k.send i n))
    → Relays w (upwards side k.recv) (downwards side k.recv) (copy_read side k w)
unfolding copy_read
copy_read-Relays client_side k w h f fits =
    elim (Bool-cases ((w.s.read_buffer.limit - w.s.read_buffer.write) == 0)) [
      | inl full ↦
          let none_left : w.s.read_buffer.limit - w.s.read_buffer.write ≡ 0 = (==_iff _ 0).0 full in
          let nothing : brought k.recv ≡ [] =
            brought_none k.recv (subst (λ n. RecvFits n k.recv) none_left f) in
          rw (write_count h.0.0, ◌>>=◌, full, nothing) (copy_update-Relays w w [] [] h (unmoved w))
      | inr room ↦ rw (write_count h.0.0, ◌>>=◌, room) (client_data-Relays k fits w k.recv h f)
    ]
copy_read-Relays origin_side k w h f fits =
    elim (Bool-cases ((w.s.write_buffer.limit - w.s.write_buffer.write) == 0)) [
      | inl full ↦
          let none_left : w.s.write_buffer.limit - w.s.write_buffer.write ≡ 0 =
            (==_iff _ 0).0 full in
          let nothing : brought k.recv ≡ [] =
            brought_none k.recv (subst (λ n. RecvFits n k.recv) none_left f) in
          rw (write_count h.0.1.0, ◌>>=◌, full, nothing)
            (copy_update-Relays w w [] [] h (unmoved w))
      | inr room ↦ rw (write_count h.0.1.0, ◌>>=◌, room) (origin_data-Relays k fits w k.recv h f)
    ]

pub copy_write-Relays :
    (side : Side) (k : Kernel) (w : World)
    → InStage copying w
    → ((i n : ℕ) → SendFits n (k.send i n))
    → Relays w [] [] (copy_write side k w)
unfolding copy_write
copy_write-Relays client_side k w h fits = to_client-Relays k.send fits w w [] [] h (unmoved w)
copy_write-Relays origin_side k w h fits = to_origin-Relays k.send fits w w [] [] h (unmoved w)
