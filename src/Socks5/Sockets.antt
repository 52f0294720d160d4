-- ===== src/Socks5/Sockets.antt =====
-- One call of `recv` into a sound buffer of src/socks5.c, and one of `send` from it.
use tpe2026c1_socks.Buffer.Bounds.{IsValid, read_count, write_count}
use tpe2026c1_socks.Buffer.{Buffer}
use tpe2026c1_socks.Buffer.Queue.{Holds, buffer_read_adv_lem, contents, write_adv_lem}
use tpe2026c1_socks.Net.{
  RecvFits, RecvResult, SendFits, SendResult, recv_again, recv_failed, send_again, send_failed,
  sent_bytes, received,
}
use tpe2026c1_socks.Prelude.{
  Bool-cases, Bytes, arith, drop, inl, inr, length, refl, some, ℕ, ◌++◌, ◌-◌, ◌==◌, ◌>>=◌, ◌≡◌, ◌≤◌,
  ap, sym, take-append-drop, take_less, ◌∙◌,
}
use tpe2026c1_socks.Prelude.Memory.{store_in, window}
use tpe2026c1_socks.Socks5.State.{
  Input, Output, input_ended, no_input, no_output, output_failed, send_out, sent_out, take_in,
  taken_in, input, output,
}

-- The buffer after a call of `recv`, if bytes came, holds them behind those that waited.
abbrev pub Fills : Buffer → RecvResult → Input → Type 0
Fills b r (input c) = (bs : Bytes) × (r ≡ received bs) × Holds b c (contents b ++ bs)
Fills b r i = Unit

pub take_in_lem :
    {b : Buffer} (r : RecvResult)
    → IsValid b
    → RecvFits (b.limit - b.write) r
    → (i : Input) × (take_in b r ≡ some i) × Fills b r i
unfolding take_in taken_in
take_in_lem recv_again v h = (no_input, rw (write_count v, ◌>>=◌) refl, tt)
take_in_lem recv_failed v h = (input_ended, rw (write_count v, ◌>>=◌) refl, tt)
take_in_lem {b} (received bs) v h = elim (Bool-cases (length bs == 0)) [
  | inl ends ↦ (input_ended, rw (write_count v, ◌>>=◌, ends) refl, tt)
  | inr some_bytes ↦
      let (c, e, k, _) = write_adv_lem bs v (omega (arith, v, h.0)) in
      let s = store_in b.storage b.write bs (omega (arith, v, h.0)) in
      (input c, rw (write_count v, ◌>>=◌, some_bytes, s, e) refl, (bs, refl, k))
]

-- The buffer after a call of `send`, if bytes went, holds the others.
abbrev pub Drains : Buffer → Output → Type 0
Drains b (output c bs) = IsValid c × (c.limit ≡ b.limit) × (bs ++ contents c ≡ contents b)
Drains b o = Unit

pub taken_bytes :
    (b : Buffer) (n : ℕ) {c : Buffer}
    → Holds b c (drop n (contents b))
    → n ≤ b.write - b.read
    → window b.storage b.read n ++ contents c ≡ contents b
taken_bytes b n k f = rw k.holds (
    ap (λ t. t ++ drop n (contents b))
      (sym (take_less (drop b.read b.storage) n (b.write - b.read) f))
    ∙ take-append-drop n (contents b))

sent_out_lem :
    {b : Buffer} (r : SendResult)
    → IsValid b
    → SendFits (b.write - b.read) r
    → (o : Output) × (sent_out b b.read r ≡ some o) × Drains b o
unfolding sent_out
sent_out_lem send_again v f = (no_output, refl, tt)
sent_out_lem send_failed v f = (output_failed, refl, tt)
sent_out_lem {b} (sent_bytes n) v f =
    let (c, e, k) = buffer_read_adv_lem n v f in
    (
      output c (window b.storage b.read n),
      rw (e, ◌>>=◌) refl,
      (k.valid, k.limit, taken_bytes b n k f),
    )

pub send_out_lem :
    {b : Buffer} (send : ℕ → ℕ → SendResult)
    → IsValid b
    → ((i n : ℕ) → SendFits n (send i n))
    → (o : Output) × (send_out b send ≡ some o) × Drains b o
unfolding send_out
send_out_lem {b} send v h =
    rw (read_count v, ◌>>=◌) (sent_out_lem (send 0 (b.write - b.read)) v (h 0 (b.write - b.read)))
