-- ===== src/Socks5/Reply.antt =====
-- The bytes of the replies of src/socks5.c.
use tpe2026c1_socks.Buffer.Bounds.{IsValid}
use tpe2026c1_socks.Buffer.{Buffer, buffer_reset}
use tpe2026c1_socks.Buffer.Emit.{Emits, emit_all, emit_byte, emit_seq}
use tpe2026c1_socks.Buffer.Queue.{Holds, buffer_reset_lem}
use tpe2026c1_socks.Parsers.Request.{atyp_ipv4, atyp_ipv6}
use tpe2026c1_socks.Prelude.{
  Bytes, Option, [], ap, arith, length, length-append, length-replicate, length-take, none, refl,
  replicate, some, take, ℕ, ◌%◌, ◌++◌, ◌/◌, ◌>>=◌, ◌∙◌, ◌∷◌, ◌≡◌, ◌≤◌, ==_iff, Bool-cases,
  Option-cases, inl, inr, ◌==◌, ◌≢◌, ◌⊎◌, subst,
}
use tpe2026c1_socks.Socks5.Connect.{build_reply, local_address, write_bound, write_reply, write_u16}
use tpe2026c1_socks.Socks5.State.{Address, World, sockaddr_in, sockaddr_in6, Socks5, rep_success}

abbrev pub port_bytes : ℕ → Bytes
port_bytes p = p / 256 % 256 ∷ p % 256 ∷ []

-- The type, the address and the port that a reply ends with: 0.0.0.0:0 where none is known.
abbrev pub bound_bytes : Option Address → Bytes
bound_bytes (some (sockaddr_in6 ip p)) = atyp_ipv6 ∷ take 16 ip ++ port_bytes p
bound_bytes (some (sockaddr_in ip p)) = atyp_ipv4 ∷ take 4 ip ++ port_bytes p
bound_bytes none = atyp_ipv4 ∷ replicate 6 0

-- RFC 1928: the version, the reply, a reserved byte, and where the origin's socket is bound.
abbrev pub reply_bytes : ℕ → Option Address → Bytes
reply_bytes rep local = 0x05 ∷ rep ∷ 0x00 ∷ bound_bytes local

emit_u16 : (p : ℕ) → Emits (λ b. write_u16 b p) (port_bytes p)
unfolding write_u16
emit_u16 p = emit_seq (emit_byte (p / 256 % 256)) (emit_byte (p % 256))

emit_bound : (local : Option Address) → Emits (write_bound local) (bound_bytes local)
unfolding write_bound
emit_bound (some (sockaddr_in6 ip p)) =
    emit_seq (emit_byte atyp_ipv6) (emit_seq (emit_all (take 16 ip)) (emit_u16 p))
emit_bound (some (sockaddr_in ip p)) =
    emit_seq (emit_byte atyp_ipv4) (emit_seq (emit_all (take 4 ip)) (emit_u16 p))
emit_bound none = emit_seq (emit_byte atyp_ipv4) (emit_all (replicate 6 0))

length-bound : (local : Option Address) → length (bound_bytes local) ≤ 19
length-bound (some (sockaddr_in6 ip p)) =
    omega (arith, length-append (take 16 ip) (port_bytes p), length-take 16 ip)
length-bound (some (sockaddr_in ip p)) =
    omega (arith, length-append (take 4 ip) (port_bytes p), length-take 4 ip)
length-bound none = omega (arith, length-replicate {A = ℕ} 6 0)

emit_reply :
    (rep : ℕ) (local : Option Address) → Emits (write_reply rep local) (reply_bytes rep local)
unfolding write_reply
emit_reply rep local =
    emit_seq (emit_byte 0x05)
      (emit_seq (emit_byte rep) (emit_seq (emit_byte 0x00) (emit_bound local)))

-- A reply names what `getsockname` told exactly where its code is success and there is an origin.
abbrev pub Tells : Socks5 → ℕ → Option Address → (Option Address → Type 0) → Type 0
Tells s rep sockname P =
    ((rep ≡ rep_success) × ((fd : ℕ) × (s.origin_fd ≡ some fd)) × P sockname)
    ⊎ (((rep ≢ rep_success) ⊎ (s.origin_fd ≡ none)) × P none)

-- Either way the bytes hold one address.
pub Tells-some :
    (s : Socks5) (rep : ℕ) (sockname : Option Address) (P : Option Address → Type 0)
    → Tells s rep sockname P
    → (local : Option Address) × P local
Tells-some s rep sockname P (inl (good, there, h)) = (sockname, h)
Tells-some s rep sockname P (inr (bad, h)) = (none, h)

local_address-Tells :
    (s : Socks5) (rep : ℕ) (sockname : Option Address) (P : Option Address → Type 0)
    → P (local_address s rep sockname)
    → Tells s rep sockname P
unfolding local_address
local_address-Tells s rep sockname P h = elim (Bool-cases (rep == rep_success)) [
  | inl t ↦
      let good : rep ≡ rep_success = (==_iff rep rep_success).0 t in
      elim (Option-cases s.origin_fd) [
        | inl e ↦
            let q : local_address s rep sockname ≡ none = rw (local_address, t, e) refl in
            inr (inr e, subst P q h)
        | inr (fd, e) ↦
            let q : local_address s rep sockname ≡ sockname = rw (local_address, t, e) refl in
            inl (good, (fd, e), subst P q h)
      ]
  | inr t ↦
      let q : local_address s rep sockname ≡ none = rw (local_address, t) refl in
      inr (inl (ground (arith, t)), subst P q h)
]

-- `build_reply`, with a sound write buffer of at least 256 bytes, does not abort. The buffer then
-- holds exactly the reply of RFC 1928: the version, the code, a zero, and the address and port
-- where the origin's socket is bound if the code is success, the socket is there and `getsockname`
-- tells, and else 0.0.0.0:0. Nothing else of the connection changes.
pub build_reply_lem :
    (sockname : Option Address) (w : World) (rep : ℕ)
    → IsValid w.s.write_buffer
    → 256 ≤ w.s.write_buffer.limit
    → (c : Buffer) × (build_reply sockname w rep
        ≡ some (record w { s = record (w.s) { write_buffer = c } }))
      × Tells w.s rep sockname (λ local. Holds w.s.write_buffer c (reply_bytes rep local))
unfolding build_reply
build_reply_lem sockname w rep v room =
    let local : Option Address = local_address w.s rep sockname in
    let z : Holds w.s.write_buffer (buffer_reset w.s.write_buffer) [] = buffer_reset_lem v in
    let w0 : (buffer_reset w.s.write_buffer).write ≡ 0 = unfold buffer_reset in refl in
    let (c, e, k, _) =
      (emit_reply rep local).emits (buffer_reset w.s.write_buffer) z.valid
        (omega (arith, w0, z.limit, length-bound local)) in
    (
      c,
      rw (e, ◌>>=◌) refl,
      local_address-Tells w.s rep sockname (λ l. Holds w.s.write_buffer c (reply_bytes rep l))
          (record {
            valid = k.valid;
            holds = k.holds ∙ ap (λ t. t ++ reply_bytes rep local) z.holds;
            limit = k.limit ∙ z.limit;
          }),
    )
