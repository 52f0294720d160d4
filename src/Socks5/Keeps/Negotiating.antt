-- ===== src/Socks5/Keeps/Negotiating.antt =====
-- The greeting and the authentication.
use tpe2026c1_socks.Parsers.Run.{run, consume_lem}
use tpe2026c1_socks.Parsers.Hello
use tpe2026c1_socks.Buffer.Bounds.{IsValid}
use tpe2026c1_socks.Buffer.{Buffer, buffer_can_read, buffer_reset, buffer_write}
use tpe2026c1_socks.Buffer.Queue.{Holds, buffer_reset_lem, buffer_write_lem, contents}
use tpe2026c1_socks.Config.{ProxyConfig}
use tpe2026c1_socks.Net.{
  Interest, RecvFits, RecvResult, SendFits, SendResult, only_read, only_write,
}
use tpe2026c1_socks.Parsers.Hello.{
  HelloParser, hello_parser_consume, hello_parser_feed, method_none, method_userpass,
}
use tpe2026c1_socks.Prelude.{
  Bool-cases, [], ap, arith, false, if◌then◌else◌, inl, inr, not, refl, some, ℕ, ◌++◌, ◌-◌, ◌>>=◌,
  ◌∙◌, ◌∷◌, ◌≡◌, ◌≤◌, true, ◌==◌,
}
use tpe2026c1_socks.Socks5.Keeps.Replying.{wrote-Sound}
use tpe2026c1_socks.Socks5.Keeps.Requesting.{set_interest_lem}
use tpe2026c1_socks.Socks5.Negotiate.{
  choose_method, client_interest_then, hello_input, hello_output, hello_read, hello_reply,
  hello_sent, hello_write, wrote,
}
use tpe2026c1_socks.Socks5.Sockets.{Drains, Fills, send_out_lem, take_in_lem}
use tpe2026c1_socks.Socks5.Sound.{
  InStage, Listens, Offered, Runs, Sound, auth_reading, ended, failing, go_to, hello_reading,
  hello_writing, if-Runs, request_reading, stay_in,
}
use tpe2026c1_socks.Socks5.State.{
  Input, Output, World, auth_read_state, hello_write_state, input_ended, no_input, no_output,
  output_failed, request_read_state, input, output,
}

-- The three answers of `choose_method`.
choose_method-Offered :
    (cfg : ProxyConfig) (p : HelloParser) → Offered (choose_method cfg p) cfg.auth_required
unfolding choose_method
choose_method-Offered cfg p = elim (Bool-cases cfg.auth_required) [
  | inl a ↦ elim (Bool-cases p.has_userpass) [
    | inl u ↦ rw (a, u) (inr (inl refl))
    | inr u ↦ rw (a, u) (inr (inr refl))
  ]
  | inr a ↦ elim (Bool-cases p.has_noauth) [
    | inl n ↦ rw (a, n) (inl (refl, refl))
    | inr n ↦ elim (Bool-cases p.has_userpass) [
      | inl u ↦ rw (a, n, u) (inr (inl refl))
      | inr u ↦ rw (a, n, u) (inr (inr refl))
    ]
  ]
]

pub client_interest_then_lem :
    (w : World) (i : Interest) (next : ℕ) {j : Interest}
    → Listens w j
    → client_interest_then w i next ≡ (next, record w { client_interest = some i })
unfolding client_interest_then
client_interest_then_lem w i next l = rw (set_interest_lem w.client_interest i l) refl

-- A message of two bytes in the write buffer.
pub two_bytes :
    {b : Buffer} (x y : ℕ)
    → IsValid b
    → 256 ≤ b.limit
    → (b1 : Buffer) × (b2 : Buffer) × (buffer_write (buffer_reset b) x ≡ some b1)
      × (buffer_write b1 y ≡ some b2)
      × Holds b b2 (x ∷ y ∷ [])
two_bytes {b} x y v room =
    let z : Holds b (buffer_reset b) [] = buffer_reset_lem v in
    let w0 : (buffer_reset b).write ≡ 0 = unfold buffer_reset in refl in
    let (b1, e1, k1, n1) = buffer_write_lem x z.valid (omega (arith, w0, z.limit)) in
    let (b2, e2, k2, n2) = buffer_write_lem y k1.valid (omega (arith, w0, n1, k1.limit, z.limit)) in
    (
      b1,
      b2,
      e1,
      e2,
      record {
        valid = k2.valid;
        holds = k2.holds ∙ ap (λ t. t ++ y ∷ []) (k1.holds ∙ ap (λ t. t ++ x ∷ []) z.holds);
        limit = k2.limit ∙ k1.limit ∙ z.limit;
      },
    )

-- The answer to a whole greeting is the version and the method.
pub hello_reply_lem :
    (w : World)
    → IsValid w.s.write_buffer
    → 256 ≤ w.s.write_buffer.limit
    → Listens w only_read
    → (c : Buffer) × (hello_reply w
        ≡ some (
          hello_write_state,
          record w {
            s = record (w.s) { method = choose_method w.g.config w.s.hello; write_buffer = c };
            client_interest = some only_write;
            required = w.g.config.auth_required;
          },
        ))
      × Holds w.s.write_buffer c (0x05 ∷ choose_method w.g.config w.s.hello ∷ [])
unfolding hello_reply
hello_reply_lem w v room l =
    let (b1, b2, e1, e2, k) = two_bytes 0x05 (choose_method w.g.config w.s.hello) v room in
    (
      b2,
      rw (e1, ◌>>=◌, e2)
          (ap some (
            client_interest_then_lem
              (record w {
                s = record (w.s) { method = choose_method w.g.config w.s.hello; write_buffer = b2 };
                required = w.g.config.auth_required;
              })
              only_write hello_write_state l)),
      k,
    )

hello_reply-Runs : (w : World) → InStage hello_reading w → Runs hello_reading (hello_reply w)
hello_reply-Runs w (v, r, (a, l)) =
    let (c, e, k) = hello_reply_lem w v.1.0 v.1.1 l in
    rw e (
      go_to hello_reading hello_writing _ (omega arith) (
        (v.0, (k.valid, omega (arith, k.limit, v.1.1)), v.2, v.3, v.4),
        r,
        (a, refl, choose_method-Offered w.g.config w.s.hello),
      ))

hello_input-Runs :
    (w : World) (r : RecvResult) (i : Input)
    → InStage hello_reading w
    → Fills w.s.read_buffer r i
    → Runs hello_reading (hello_input w i)
unfolding hello_input hello_parser_consume
hello_input-Runs w r no_input h f = stay_in hello_reading w h
hello_input-Runs w r input_ended (v, z, (a, l)) f =
    go_to hello_reading failing w (omega arith) (v, z, (inl a, (only_read, l)))
hello_input-Runs w r (input rb) (v, z, (a, l)) (bs, got, filled) =
    let (rb', e, left) =
      consume_lem hello_parser_feed Hello.finished Hello.failed w.s.hello false filled.valid in
    let (p, rest, done) = run hello_parser_feed Hello.finished w.s.hello (contents rb) in
    let w' : World = record w { s = record (w.s) { hello = p; read_buffer = rb' } } in
    let v' : Sound w' = (left.valid, v.1, v.2, v.3, v.4) in
    rw (e, ◌>>=◌)
      (if-Runs hello_reading (not done) (λ _. stay_in hello_reading w' (v', z, (a, l)))
        (λ _.
          if-Runs hello_reading (if done then Hello.failed p else false)
            (λ _. go_to hello_reading failing w' (omega arith) (v', z, (inl a, (only_read, l))))
            (λ _. hello_reply-Runs w' (v', z, (a, l)))))

pub hello_read-Runs :
    (r : RecvResult) (w : World)
    → InStage hello_reading w
    → RecvFits (w.s.read_buffer.limit - w.s.read_buffer.write) r
    → Runs hello_reading (hello_read r w)
unfolding hello_read
hello_read-Runs r w h f =
    let (i, e, fills) = take_in_lem r h.0.0 f in rw (e, ◌>>=◌) (hello_input-Runs w r i h fills)

-- Without a method the connection ends; otherwise the client authenticates, or goes on at once.
hello_sent-Runs : (w : World) → InStage hello_writing w → Runs hello_writing (some (hello_sent w))
unfolding hello_sent
hello_sent-Runs w (v, r, (a, l, inl (m, free))) =
    let some_method : (w.s.method == method_none) ≡ false = ground (arith, m) in
    let no_password : (w.s.method == method_userpass) ≡ false = ground (arith, m) in
    rw (some_method, no_password, client_interest_then_lem w only_read request_read_state l)
      (go_to hello_writing request_reading (record w { client_interest = some only_read })
        (omega arith) (v, r, (a, refl, inl (m, free))))
hello_sent-Runs w (v, r, (a, l, inr (inl m))) =
    let some_method : (w.s.method == method_none) ≡ false = ground (arith, m) in
    let password : (w.s.method == method_userpass) ≡ true = ground (arith, m) in
    rw (some_method, password, client_interest_then_lem w only_read auth_read_state l)
      (go_to hello_writing auth_reading (record w { client_interest = some only_read })
        (omega arith) (v, r, (a, refl, m)))
hello_sent-Runs w (v, r, (a, l, inr (inr m))) =
    let no_method : (w.s.method == method_none) ≡ true = ground (arith, m) in
    rw no_method (go_to hello_writing ended w (omega arith) (v, r, (inl a, (only_write, l))))

hello_output-Runs :
    (w : World) (o : Output)
    → InStage hello_writing w
    → Drains w.s.write_buffer o
    → Runs hello_writing (some (hello_output w o))
unfolding hello_output
hello_output-Runs w no_output h d = stay_in hello_writing w h
hello_output-Runs w output_failed (v, r, (a, l, m)) d =
    go_to hello_writing failing w (omega arith) (v, r, (inl a, (only_write, l)))
hello_output-Runs w (output wb bs) (v, r, h) d =
    let ok : InStage hello_writing (wrote w wb bs) =
      (wrote-Sound w wb bs v d, unfold wrote in r, unfold wrote in h) in
    elim (Bool-cases (buffer_can_read wb)) [
      | inl waiting ↦ rw waiting (stay_in hello_writing (wrote w wb bs) ok)
      | inr all_sent ↦ rw all_sent (hello_sent-Runs (wrote w wb bs) ok)
    ]

pub hello_write-Runs :
    (send : ℕ → ℕ → SendResult) (w : World)
    → InStage hello_writing w
    → ((i n : ℕ) → SendFits n (send i n))
    → Runs hello_writing (hello_write send w)
unfolding hello_write
hello_write-Runs send w h f =
    let (o, e, d) = send_out_lem send h.0.1.0 f in rw (e, ◌>>=◌) (hello_output-Runs w o h d)
