-- ===== src/Socks5/Keeps/Replying.antt =====
-- The reply to the request goes out.
use tpe2026c1_socks.Buffer.{Buffer, buffer_can_read}
use tpe2026c1_socks.Net.{Interest, SendFits, SendResult, only_write}
use tpe2026c1_socks.Prelude.{
  ==_iff, Bool-cases, Bytes, arith, inl, inr, some, ℕ, ◌==◌, ◌>>=◌, ◌≡◌, ◌⊎◌,
}
use tpe2026c1_socks.Socks5.Negotiate.{wrote}
use tpe2026c1_socks.Socks5.Request.{request_output, request_sent, request_write}
use tpe2026c1_socks.Socks5.Sockets.{Drains, send_out_lem}
use tpe2026c1_socks.Socks5.Sound.{
  Alone, InStage, Linked, Paired, Runs, Sound, copying, ended, failing, go_to, replying, stay_in,
}
use tpe2026c1_socks.Socks5.State.{Output, World, no_output, output_failed, rep_success, output}

pub Linked-any : (w : World) {i : Interest} → (Alone w ⊎ Paired w i) → Linked w
Linked-any w (inl a) = inl a
Linked-any w {i} (inr p) = inr (i, p)

-- What `send` leaves of a sound connection.
pub wrote-Sound :
    (w : World) (wb : Buffer) (bs : Bytes)
    → Sound w
    → Drains w.s.write_buffer (output wb bs)
    → Sound (wrote w wb bs)
unfolding wrote
wrote-Sound w wb bs v (ok, same, _) = (v.0, (ok, omega (arith, same, v.1.1)), v.2, v.3, v.4)

request_sent-Runs : (w : World) → InStage replying w → Runs replying (some (request_sent w))
unfolding request_sent
request_sent-Runs w (v, r, (n, l, c, h)) = elim (Bool-cases (w.s.reply == rep_success)) [
  | inl ok ↦
      let good : w.s.reply ≡ rep_success = (==_iff w.s.reply rep_success).0 ok in
      rw ok (go_to replying copying _ (omega arith) (v, r, (h good, (only_write, l), c, good)))
  | inr wrong ↦
      rw wrong (go_to replying ended _ (omega arith) (v, r, (Linked-any w n, (only_write, l))))
]

request_output-Runs :
    (w : World) (o : Output)
    → InStage replying w
    → Drains w.s.write_buffer o
    → Runs replying (some (request_output w o))
unfolding request_output
request_output-Runs w no_output h d = stay_in replying w h
request_output-Runs w output_failed (v, r, (n, l, c, h)) d =
    go_to replying failing w (omega arith) (v, r, (Linked-any w n, (only_write, l)))
request_output-Runs w (output wb bs) (v, r, h) d =
    let ok : InStage replying (wrote w wb bs) =
      (wrote-Sound w wb bs v d, unfold wrote in r, unfold wrote in h) in
    elim (Bool-cases (buffer_can_read wb)) [
      | inl waiting ↦ rw waiting (stay_in replying (wrote w wb bs) ok)
      | inr all_sent ↦ rw all_sent (request_sent-Runs (wrote w wb bs) ok)
    ]

pub request_write-Runs :
    (send : ℕ → ℕ → SendResult) (w : World)
    → InStage replying w
    → ((i n : ℕ) → SendFits n (send i n))
    → Runs replying (request_write send w)
unfolding request_write
request_write-Runs send w h f =
    let (o, e, d) = send_out_lem send h.0.1.0 f in rw (e, ◌>>=◌) (request_output-Runs w o h d)
