-- ===== src/Socks5/HalfClose.antt =====
-- When the relay of src/socks5.c ends, and which candidates a resolved name has.
use tpe2026c1_socks.Buffer.Bounds.{IsValid}
use mathlib.Core.Bool.{false≢true}
use tpe2026c1_socks.Buffer.{Buffer, buffer_can_read}
use tpe2026c1_socks.Buffer.Queue.{can_read_nil, contents, contents_empty, length-contents}
use tpe2026c1_socks.Prelude.{
  Bool, List, [], ap, arith, false, if◌then◌else◌, length, ltb, lt→ltb, not, refl, suc, sym, take,
  take_all, true, ℕ, ◌&&◌, ◌+◌, ◌-◌, ◌↔◌, ◌∷◌, ◌≡◌, dec_lt,
}
use tpe2026c1_socks.Socks5.Connect.{candidates}
use tpe2026c1_socks.Socks5.Copy.{copy_compute_interests, copy_done, copy_update}
use tpe2026c1_socks.Socks5.Keeps.Copying.{shut_client_lem, shut_origin_lem}
use tpe2026c1_socks.Socks5.State.{
  AddrInfo, Address, Socks5, World, copy_state, done_state, max_addrs, other_family, resolved,
}

-- The end of one direction: no more bytes come, and none waits.
abbrev pub Over : Bool → Buffer → Type 0
Over eof b = (eof ≡ true) × (contents b ≡ [])

Over-iff :
    (eof : Bool) {b : Buffer} → IsValid b → ((eof && not (buffer_can_read b)) ≡ true) ↔ Over eof b
Over-iff true {b} v = elim (dec_lt b.read b.write) [
  | yes h ↦
      let can : buffer_can_read b ≡ true = unfold buffer_can_read in lt→ltb _ _ h in
      rw can (λ e. absurd (cc), λ o. absurd (omega (arith, length-contents v, ap length o.1)))
  | no h ↦
      let none_waits : contents b ≡ [] = contents_empty b (omega (arith, v)) in
      rw (can_read_nil v none_waits) (λ _. (refl, none_waits), λ _. refl)
]
Over-iff false v = (λ e. absurd (cc), λ o. absurd (false≢true o.0))

both_iff :
    {P Q : Type 0} (a b : Bool) → (a ≡ true) ↔ P → (b ≡ true) ↔ Q → ((a && b) ≡ true) ↔ (P × Q)
both_iff true b p q = (λ e. (p.0 refl, q.0 e), λ h. q.1 h.1)
both_iff false b p q = (λ e. absurd (false≢true e), λ h. absurd (false≢true (p.1 h.0)))

-- The end of `copy_update`.
abbrev next_of : Bool → World → ℕ × World
next_of d x = if d then (done_state, x) else (copy_state, copy_compute_interests x)

chosen : (d : Bool) (x : World) → ((next_of d x).0 ≡ done_state) ↔ (d ≡ true)
chosen true x = (λ _. refl, λ _. refl)
chosen false x = (λ e. absurd (omega (arith, e)), λ e. absurd (false≢true e))

done_iff :
    (s : Socks5)
    → IsValid s.read_buffer
    → IsValid s.write_buffer
    → (copy_done s ≡ true) ↔ (Over s.client_eof s.read_buffer × Over s.origin_eof s.write_buffer)
unfolding copy_done
done_iff s v u = both_iff _ _ (Over-iff s.client_eof v) (Over-iff s.origin_eof u)

-- `copy_update` on a connection with sound buffers ends the relay exactly where both sides have
-- ended and every byte of both directions was sent.
pub copy_update_iff :
    (w : World)
    → IsValid w.s.read_buffer
    → IsValid w.s.write_buffer
    → ((copy_update w).0 ≡ done_state)
      ↔ (Over w.s.client_eof w.s.read_buffer × Over w.s.origin_eof w.s.write_buffer)
unfolding copy_update
copy_update_iff w v u =
    let (x, e) = shut_origin_lem w.s in
    let s1 : Socks5 = record (w.s) { origin_wr_shut = x } in
    let (y, f) = shut_client_lem s1 in
    let s2 : Socks5 = record s1 { client_wr_shut = y } in
    rw (e, f) (iff_trans (chosen (copy_done s2) (record w { s = s2 })) (done_iff s2 v u))
  where
    iff_trans : {P Q R : Type 0} → P ↔ Q → Q ↔ R → P ↔ R
    iff_trans p q = (λ a. q.0 (p.0 a), λ c. p.1 (q.1 c))

-- The addresses of a resolver's list, in order.
abbrev pub addresses : List AddrInfo → List Address
addresses [] = []
addresses (resolved a ∷ ais) = a ∷ addresses ais
addresses (other_family ∷ ais) = addresses ais

-- The loop of `resolv_block`, with `n` candidates already taken, keeps the first of the IPv4 and
-- IPv6 addresses, in order, up to 16 in all.
pub candidates-take :
    (n : ℕ) (ais : List AddrInfo) → candidates n ais ≡ take (max_addrs - n) (addresses ais)
unfolding candidates
candidates-take n [] = sym (take_all [] (max_addrs - n) (omega arith))
candidates-take n (resolved a ∷ ais) = elim (dec_lt n max_addrs) [
  | yes low ↦
      let e : max_addrs - n ≡ suc (max_addrs - (n + 1)) = omega arith in
      rw (lt→ltb _ _ low, e) (ap (◌∷◌ a) (candidates-take (n + 1) ais))
  | no full ↦
      let e : max_addrs - n ≡ 0 = omega arith in
      let f : ltb n max_addrs ≡ false = ground arith in rw (e, f) refl
]
candidates-take n (other_family ∷ ais) = elim (dec_lt n max_addrs) [
  | yes low ↦ rw (lt→ltb _ _ low) (candidates-take n ais)
  | no full ↦
      let e : max_addrs - n ≡ 0 = omega arith in
      let f : ltb n max_addrs ≡ false = ground arith in rw (e, f) refl
]
