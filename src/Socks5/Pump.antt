-- ===== src/Socks5/Pump.antt =====
-- `copy_pump` of src/socks5.c: the loop ends, and no byte is lost, repeated or moved.
use tpe2026c1_socks.Buffer.Bounds.{IsValid, read_count}
use tpe2026c1_socks.Buffer.{Buffer, buffer_can_read}
use tpe2026c1_socks.Buffer.Queue.{
  buffer_read_adv_lem, can_read_nil, contents, contents_empty, length-contents,
}
use tpe2026c1_socks.Net.{SendFits, SendResult, send_again, send_failed, sent_bytes}
use tpe2026c1_socks.Prelude.{
  Bool, Bool-cases, Bytes, Option, [], ap, append_assoc, arith, false, inl, inr, length,
  length-drop, lt→ltb, refl, some, suc, true, zero, ℕ, ◌++◌, ◌+◌, ◌-◌, ◌<◌, ◌==◌, ◌>>=◌, ◌∙◌, ◌≡◌,
  ◌⊎◌, dec_lt,
}
use tpe2026c1_socks.Prelude.Memory.{window}
use tpe2026c1_socks.Socks5.Copy.{copy_pump, pump_loop, pump_step}
use tpe2026c1_socks.Socks5.Sockets.{taken_bytes}
use tpe2026c1_socks.Socks5.Sound.{waits}

-- What the loop leaves of a buffer: the bytes that it sent are those in front of the ones that
-- stay, and if it did not fail, then a byte stays only where `send` would have blocked.
pub record Pumped (send : ℕ → ℕ → SendResult) (b : Buffer) (failed : Bool) (c : Buffer) (bs : Bytes)
    : Type 0 where
  pub valid : IsValid c
  pub limit : c.limit ≡ b.limit
  pub order : bs ++ contents c ≡ contents b
  pub blocked : failed ≡ false → (contents c ≡ []) ⊎ ((j : ℕ) × (n : ℕ) × (send j n ≡ send_again))

abbrev pub Pumps : (ℕ → ℕ → SendResult) → Buffer → Option (Bool × Buffer × Bytes) → Type 0
Pumps send b r =
    (failed : Bool) × (c : Buffer) × (bs : Bytes) × (r ≡ some (failed, c, bs))
    × Pumped send b failed c bs

stops :
    (send : ℕ → ℕ → SendResult) {b : Buffer} (failed : Bool)
    → IsValid b
    → (failed ≡ false → (contents b ≡ []) ⊎ ((j : ℕ) × (n : ℕ) × (send j n ≡ send_again)))
    → Pumps send b (some (failed, b, []))
stops send {b} failed v h =
    (failed, b, [], refl, record { valid = v; limit = refl; order = refl; blocked = h })

module _ (send : ℕ → ℕ → SendResult) (i : ℕ) {b : Buffer} (v : IsValid b)
    (next : Buffer → Option (Bool × Buffer × Bytes))
    (goes_on : (c : Buffer)
      → IsValid c
      → c.write - c.read < b.write - b.read
      → Pumps send c (next c)) where
  step_lem :
      (r : SendResult)
      → send i (b.write - b.read) ≡ r
      → SendFits (b.write - b.read) r
      → Pumps send b (pump_step b b.read next r)
  unfolding pump_step
  step_lem send_again e f = stops send false v (λ _. inr (i, b.write - b.read, e))
  step_lem send_failed e f = stops send true v (λ z. absurd (cc))
  step_lem (sent_bytes n) e f = elim (Bool-cases (n == 0)) [
    | inl none_sent ↦ rw none_sent (stops send true v (λ z. absurd (cc)))
    | inr some_sent ↦
        let (c, adv, k) = buffer_read_adv_lem n v f in
        let shorter : c.write - c.read < b.write - b.read = ground (
          arith,
          length-contents v,
          length-contents k.valid,
          ap length k.holds,
          length-drop n (contents b),
        ) in
        let (failed, d, bs, q, p) = goes_on c k.valid shorter in
        (
          failed,
          d,
          window b.storage b.read n ++ bs,
          rw (some_sent, adv, ◌>>=◌, q) refl,
          record {
            valid = p.valid;
            limit = p.limit ∙ k.limit;
            order =
                append_assoc (window b.storage b.read n) bs (contents d)
                ∙ ap (λ t. window b.storage b.read n ++ t) p.order
                ∙ taken_bytes b n k f;
            blocked = p.blocked;
          },
        )
  ]

pump_loop_lem :
    (send : ℕ → ℕ → SendResult) (fuel i : ℕ) {b : Buffer}
    → IsValid b
    → ((j n : ℕ) → SendFits n (send j n))
    → b.write - b.read < fuel
    → Pumps send b (pump_loop send fuel i b)
unfolding pump_loop
pump_loop_lem send zero i v f h = absurd (omega (arith, h))
pump_loop_lem send (suc fuel) i {b} v f h = elim (dec_lt b.read b.write) [
  | yes waits ↦
      let can : buffer_can_read b ≡ true = unfold buffer_can_read in lt→ltb _ _ waits in
      rw (pump_loop, can, read_count v, ◌>>=◌)
        (step_lem send i v (pump_loop send fuel (i + 1))
          (λ c ok less. pump_loop_lem send fuel (i + 1) ok f (omega arith))
          (send i (b.write - b.read)) refl (f i (b.write - b.read)))
  | no drained ↦
      let nothing : contents b ≡ [] = contents_empty b (omega (arith, v)) in
      rw (pump_loop, can_read_nil v nothing) (stops send false v (λ _. inl nothing))
]

-- `copy_pump` on a sound buffer ends, whatever each call of `send` returns: the bytes that it sent,
-- followed by those that stay in the buffer, are those that waited, in order; and where it does not
-- fail, it has sent them all or `send` would have blocked.
pub copy_pump_lem :
    (send : ℕ → ℕ → SendResult) {b : Buffer}
    → IsValid b
    → ((j n : ℕ) → SendFits n (send j n))
    → Pumps send b (copy_pump send b)
unfolding copy_pump
copy_pump_lem send {b} v f = pump_loop_lem send (suc (b.write - b.read)) 0 v f (omega arith)
