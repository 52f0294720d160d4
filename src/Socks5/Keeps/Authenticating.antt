-- ===== src/Socks5/Keeps/Authenticating.antt =====
-- The username and the password.
use tpe2026c1_socks.Parsers.Run.{run, consume_lem}
use tpe2026c1_socks.Parsers.Auth
use tpe2026c1_socks.Socks5.Negotiate
use tpe2026c1_socks.Buffer.Bounds.{IsValid}
use tpe2026c1_socks.Users.{users_check}
use tpe2026c1_socks.Buffer.{Buffer, buffer_can_read}
use tpe2026c1_socks.Buffer.Queue.{Holds, contents}
use tpe2026c1_socks.Net.{RecvFits, RecvResult, SendFits, SendResult, only_read, only_write}
use tpe2026c1_socks.Parsers.Auth.{auth_parser_consume, auth_parser_feed}
use tpe2026c1_socks.Prelude.{
  Bool, Bool-cases, [], ap, arith, false, if◌then◌else◌, inl, inr, not, refl, some, take, true, ℕ,
  ◌-◌, ◌>>=◌, ◌∷◌, ◌≡◌, ◌≤◌, some_inj, sym, ◌∙◌,
}
use tpe2026c1_socks.Prelude.Text.{c_string}
use tpe2026c1_socks.Socks5.Keeps.Negotiating.{client_interest_then_lem, two_bytes}
use tpe2026c1_socks.Socks5.Keeps.Replying.{wrote-Sound}
use tpe2026c1_socks.Socks5.Negotiate.{
  auth_input, auth_output, auth_read, auth_reply, auth_sent, auth_write, wrote,
}
use tpe2026c1_socks.Socks5.Sockets.{Drains, Fills, send_out_lem, take_in_lem}
use tpe2026c1_socks.Socks5.Sound.{
  InStage, Listens, Runs, Sound, auth_reading, auth_writing, ended, failing, go_to, if-Runs,
  request_reading, stay_in,
}
use tpe2026c1_socks.Socks5.State.{
  Input, Output, World, auth_write_state, input_ended, no_input, no_output, output_failed,
  request_read_state, input, output,
}
use tpe2026c1_socks.Users.Map.{password}
use tpe2026c1_socks.Users.Operations.{users_check_iff}

-- Whether the table of users has the credentials that were read.
abbrev pub known : World → Bool
known w =
    users_check w.g.users (some (c_string w.s.auth.username)) (some (c_string w.s.auth.password))

pub auth_reply_lem :
    (w : World)
    → IsValid w.s.write_buffer
    → 256 ≤ w.s.write_buffer.limit
    → Listens w only_read
    → (c : Buffer) × (Negotiate.auth_reply w
        ≡ some (
          auth_write_state,
          record w {
            s = record (w.s) {
              auth_ok = known w;
              username = take 255 (c_string w.s.auth.username);
              write_buffer = c;
            };
            checked = w.g.users;
            client_interest = some only_write;
          },
        ))
      × Holds w.s.write_buffer c (0x01 ∷ (if known w then 0x00 else 0x01) ∷ [])
unfolding Negotiate.auth_reply
auth_reply_lem w v room l =
    let (b1, b2, e1, e2, k) = two_bytes 0x01 (if known w then 0x00 else 0x01) v room in
    (
      b2,
      rw (e1, ◌>>=◌, e2)
          (ap some (
            client_interest_then_lem
              (record w {
                s = record (w.s) {
                  auth_ok = known w;
                  username = take 255 (c_string w.s.auth.username);
                  write_buffer = b2;
                };
                checked = w.g.users;
              })
              only_write auth_write_state l)),
      k,
    )

-- Known credentials are those of the table.
known_password :
    (w : World)
    → known w ≡ true
    → password w.g.users (c_string w.s.auth.username) ≡ some (c_string w.s.auth.password)
known_password w h =
    let (n, p, e, f, g) =
      (users_check_iff w.g.users (some (c_string w.s.auth.username))
          (some (c_string w.s.auth.password))).0
        h in
    ap (password w.g.users) (some_inj e) ∙ g ∙ sym f

auth_reply-Runs : (w : World) → InStage auth_reading w → Runs auth_reading (Negotiate.auth_reply w)
auth_reply-Runs w (v, r, (a, l, m)) =
    let (c, e, k) = auth_reply_lem w v.1.0 v.1.1 l in
    rw e (
      go_to auth_reading auth_writing _ (omega arith) (
        (v.0, (k.valid, omega (arith, k.limit, v.1.1)), v.2, v.3, v.4),
        r,
        (a, refl, m, known_password w),
      ))

auth_input-Runs :
    (w : World) (r : RecvResult) (i : Input)
    → InStage auth_reading w
    → Fills w.s.read_buffer r i
    → Runs auth_reading (auth_input w i)
unfolding auth_input auth_parser_consume
auth_input-Runs w r no_input h f = stay_in auth_reading w h
auth_input-Runs w r input_ended (v, z, (a, l, m)) f =
    go_to auth_reading failing w (omega arith) (v, z, (inl a, (only_read, l)))
auth_input-Runs w r (input rb) (v, z, (a, l, m)) (bs, got, filled) =
    let (rb', e, left) =
      consume_lem auth_parser_feed Auth.finished Auth.failed w.s.auth false filled.valid in
    let (p, rest, done) = run auth_parser_feed Auth.finished w.s.auth (contents rb) in
    let w' : World = record w { s = record (w.s) { auth = p; read_buffer = rb' } } in
    let v' : Sound w' = (left.valid, v.1, v.2, v.3, v.4) in
    rw (e, ◌>>=◌)
      (if-Runs auth_reading (not done) (λ _. stay_in auth_reading w' (v', z, (a, l, m)))
        (λ _.
          if-Runs auth_reading (if done then Auth.failed p else false)
            (λ _. go_to auth_reading failing w' (omega arith) (v', z, (inl a, (only_read, l))))
            (λ _. auth_reply-Runs w' (v', z, (a, l, m)))))

pub auth_read-Runs :
    (r : RecvResult) (w : World)
    → InStage auth_reading w
    → RecvFits (w.s.read_buffer.limit - w.s.read_buffer.write) r
    → Runs auth_reading (auth_read r w)
unfolding auth_read
auth_read-Runs r w h f =
    let (i, e, fills) = take_in_lem r h.0.0 f in rw (e, ◌>>=◌) (auth_input-Runs w r i h fills)

-- Only right credentials lead on to requests.
auth_sent-Runs : (w : World) → InStage auth_writing w → Runs auth_writing (some (auth_sent w))
unfolding auth_sent
auth_sent-Runs w (v, r, (a, l, m, c)) = elim (Bool-cases w.s.auth_ok) [
  | inl ok ↦
      let passes : not w.s.auth_ok ≡ false = ap not ok in
      rw (passes, client_interest_then_lem w only_read request_read_state l)
        (go_to auth_writing request_reading (record w { client_interest = some only_read })
          (omega arith) (v, r, (a, refl, inr (m, ok, c ok))))
  | inr wrong ↦
      let fails : not w.s.auth_ok ≡ true = ap not wrong in
      rw fails (go_to auth_writing ended w (omega arith) (v, r, (inl a, (only_write, l))))
]

auth_output-Runs :
    (w : World) (o : Output)
    → InStage auth_writing w
    → Drains w.s.write_buffer o
    → Runs auth_writing (some (auth_output w o))
unfolding auth_output
auth_output-Runs w no_output h d = stay_in auth_writing w h
auth_output-Runs w output_failed (v, r, (a, l, m, c)) d =
    go_to auth_writing failing w (omega arith) (v, r, (inl a, (only_write, l)))
auth_output-Runs w (output wb bs) (v, r, h) d =
    let ok : InStage auth_writing (wrote w wb bs) =
      (wrote-Sound w wb bs v d, unfold wrote in r, unfold wrote in h) in
    elim (Bool-cases (buffer_can_read wb)) [
      | inl waiting ↦ rw waiting (stay_in auth_writing (wrote w wb bs) ok)
      | inr all_sent ↦ rw all_sent (auth_sent-Runs (wrote w wb bs) ok)
    ]

pub auth_write-Runs :
    (send : ℕ → ℕ → SendResult) (w : World)
    → InStage auth_writing w
    → ((i n : ℕ) → SendFits n (send i n))
    → Runs auth_writing (auth_write send w)
unfolding auth_write
auth_write-Runs send w h f =
    let (o, e, d) = send_out_lem send h.0.1.0 f in rw (e, ◌>>=◌) (auth_output-Runs w o h d)
