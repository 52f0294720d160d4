-- ===== src/Pop3/Sound.antt =====
-- The sniffer of src/pop3.c against the lines of the stream.
use tpe2026c1_socks.Pop3.Spec.{credentials, lines, chomp, hear}
use tpe2026c1_socks.Pop3.Line.{HoldsLine, feed_newline, feed_newline_long, feed_other, heard}
use tpe2026c1_socks.Pop3.{Sniffer, line_size, pop3_sniffer_feed, pop3_sniffer_init}
use tpe2026c1_socks.Prelude.{
  ==_iff, Bool, Bool-cases, Bytes, List, [], ap, arith, false, inl, inr, length, ltb, lt→ltb, refl,
  some, true, ◌++◌, ◌==◌, ◌>>=◌, ◌∷◌, ◌≡◌,
}
use tpe2026c1_socks.Prelude.Text.{c_string}

-- What the sniffer still finds in `cs`, when it has read `cur` of a line and remembers this user.
abbrev Finds : Sniffer → Bytes → Bytes → Bool → Bytes → Type 0
Finds p cur user have cs =
    (q : Sniffer) × (out : List (Bytes × Bytes)) × (pop3_sniffer_feed p cs ≡ some (q, out))
    × (out ≡ credentials user have (lines cur cs))
    × ((cur' : Bytes) × HoldsLine q cur')

fresh_line :
    (p : Sniffer) (d : Bytes) (r : Bytes × Bool × List (Bytes × Bytes))
    → length d ≡ line_size
    → HoldsLine (heard p d r) []
fresh_line p d r a = record { array = a; bounded = omega arith; read = inl (refl, refl, refl) }

feed_from :
    (cs : Bytes) (p : Sniffer) (cur : Bytes) → HoldsLine p cur → Finds p cur p.user p.have_user cs
unfolding pop3_sniffer_feed lines credentials
feed_from [] p cur h = (p, [], refl, refl, (cur, h))
feed_from (c ∷ cs) p cur h = elim (Bool-cases (c == 10)) [
  | inr other ↦
      let (q, fed, k, u, v) = feed_other p cur c h other in
      let (r, out, done, found, keeps) = feed_from cs q (cur ++ c ∷ []) k in
      (r, out, rw (fed, ◌>>=◌, done) refl, rw (other, ← u, ← v) found, keeps)
  | inl newline ↦ elim h.read [
    | inl (o, l, t) ↦
        let heard_now = hear p.user p.have_user (c_string (chomp cur)) in
        let (d, fed, a) = feed_newline p cur h.array h.bounded o l t in
        let (r, out, done, found, keeps) =
          feed_from cs (heard p d heard_now) [] (fresh_line p d heard_now a) in
        let short : ltb 511 (length cur) ≡ false = ground (arith, h.bounded) in
        (
          r,
          heard_now.2 ++ out,
          rw ((==_iff c 10).0 newline, fed, ◌>>=◌, done) refl,
          rw (newline, short) (ap (λ z. heard_now.2 ++ z) found),
          keeps,
        )
    | inr (o, long) ↦
        let quiet : Bytes × Bool × List (Bytes × Bytes) = (p.user, p.have_user, []) in
        let (d, fed, a) = feed_newline_long p h.array h.bounded o in
        let (r, out, done, found, keeps) =
          feed_from cs (heard p d quiet) [] (fresh_line p d quiet a) in
        let skipped : ltb 511 (length cur) ≡ true = lt→ltb _ _ long in
        (
          r,
          out,
          rw ((==_iff c 10).0 newline, fed, ◌>>=◌, done) refl,
          rw (newline, skipped) found,
          keeps,
        )
  ]
]

-- A sniffer with a line array of 512 bytes, started by `pop3_sniffer_init` and fed a stream, writes
-- nowhere outside the array, and reports exactly the credentials of the stream's complete lines:
-- each PASS that follows a USER, without regard to case, with no line of more than 511 bytes heard.
pub pop3_sniffer-credentials :
    (p : Sniffer) (cs : Bytes)
    → length p.line ≡ line_size
    → (q : Sniffer) × (out : List (Bytes × Bytes)) × (pop3_sniffer_feed (pop3_sniffer_init p) cs
        ≡ some (q, out))
      × (out ≡ credentials [] false (lines [] cs))
unfolding pop3_sniffer_init
pop3_sniffer-credentials p cs a =
    let (q, out, e, same, _) =
      feed_from cs (pop3_sniffer_init p) []
        (record { array = a; bounded = omega arith; read = inl (refl, refl, refl) }) in
    (q, out, e, same)

-- A sniffer in the middle of a line takes any bytes and is then again in the middle of a line.
pub feed-HoldsLine :
    (cs : Bytes) (p : Sniffer) (cur : Bytes)
    → HoldsLine p cur
    → (q : Sniffer) × (out : List (Bytes × Bytes)) × (pop3_sniffer_feed p cs ≡ some (q, out))
      × ((cur' : Bytes) × HoldsLine q cur')
feed-HoldsLine cs p cur h = let (q, out, e, _, keeps) = feed_from cs p cur h in (q, out, e, keeps)
