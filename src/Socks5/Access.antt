-- ===== src/Socks5/Access.antt =====
-- Who gets through src/socks5.c: the method that a greeting is answered with, and the state in
-- which requests are served.
use mathlib.Core.Bool.{false≢true}
use tpe2026c1_socks.Config.{ProxyConfig}
use tpe2026c1_socks.Net.{Interest}
use tpe2026c1_socks.Parsers.Hello.{HelloParser, method_no_auth, method_none, method_userpass}
use tpe2026c1_socks.Prelude.{
  Bool, Option, arith, false, if◌then◌else◌, inl, inr, none, not, some, some_inj, sym, true, ℕ,
  ◌||◌, ◌↔◌, ◌∙◌, ◌≡◌, ◌≤◌,
}
use tpe2026c1_socks.Socks5.Negotiate.{choose_method}
use tpe2026c1_socks.Socks5.Reach.{Alive, IsSound, Reaches, Reaches-IsSound}
use tpe2026c1_socks.Socks5.Serves.{Serving}
use tpe2026c1_socks.Socks5.Sound.{
  Access, InStage, Paired, Stage, auth_reading, auth_writing, connecting, copying, ended, failing,
  hello_reading, hello_writing, replying, request_reading, resolving_name, number,
}
use tpe2026c1_socks.Socks5.State.{World, copy_state, rep_success, request_read_state}
use tpe2026c1_socks.Socks5.Table.{Connection}

-- `choose_method` answers that no authentication is needed exactly where none is required and the
-- client offers that; it asks for a name and a password exactly where the client offers that and
-- either authentication is required or the client does not offer to go without; and it answers
-- that no method will do exactly where neither holds.
pub choose_method_iff :
    (cfg : ProxyConfig) (p : HelloParser)
    → ((choose_method cfg p ≡ method_no_auth)
        ↔ ((cfg.auth_required ≡ false) × (p.has_noauth ≡ true)))
      × ((choose_method cfg p ≡ method_userpass)
          ↔ ((p.has_userpass ≡ true) × ((cfg.auth_required || not p.has_noauth) ≡ true)))
      × ((choose_method cfg p ≡ method_none)
          ↔ ((p.has_userpass ≡ false) × ((cfg.auth_required || not p.has_noauth) ≡ true)))
unfolding choose_method
choose_method_iff cfg p = by_flags cfg.auth_required p.has_noauth p.has_userpass
  where
    answer : Bool → Bool → Bool → ℕ
    answer required noauth userpass =
        if required
        then (if userpass then method_userpass else method_none)
        else if noauth
        then method_no_auth
        else if userpass
        then method_userpass
        else method_none

    by_flags :
        (a n u : Bool)
        → ((answer a n u ≡ method_no_auth) ↔ ((a ≡ false) × (n ≡ true)))
          × ((answer a n u ≡ method_userpass) ↔ ((u ≡ true) × ((a || not n) ≡ true)))
          × ((answer a n u ≡ method_none) ↔ ((u ≡ false) × ((a || not n) ≡ true)))
    by_flags true true true = ground arith
    by_flags true true false = ground arith
    by_flags true false true = ground arith
    by_flags true false false = ground arith
    by_flags false true true = ground arith
    by_flags false true false = ground arith
    by_flags false false true = ground arith
    by_flags false false false = ground arith

-- A stage that serves requests, or carries out one.
abbrev Served : Stage → World → Type 0
Served t w =
    request_read_state ≤ number t
    → Access w × (number t ≡ copy_state → (w.s.reply ≡ rep_success) × ((i : Interest) × Paired w i))

stage-Served : (t : Stage) (w : World) → Serving t → InStage t w → Served t w
stage-Served hello_reading w s h low = absurd (omega (arith, low))
stage-Served hello_writing w s h low = absurd (omega (arith, low))
stage-Served auth_reading w s h low = absurd (omega (arith, low))
stage-Served auth_writing w s h low = absurd (omega (arith, low))
stage-Served request_reading w s h low = (h.2.2, λ e. absurd (omega (arith, e)))
stage-Served resolving_name w s h low = (h.2.2, λ e. absurd (omega (arith, e)))
stage-Served connecting w s h low = (h.2.2, λ e. absurd (omega (arith, e)))
stage-Served replying w s h low = (h.2.2, λ e. absurd (omega (arith, e)))
stage-Served copying w s h low = (h.2.2, λ e. (h.2.3, h.2.0))
stage-Served ended w s h low = elim s [ ]
stage-Served failing w s h low = elim s [ ]

sound_served :
    (o : Option ℕ) (i : ℕ) (w : World)
    → o ≡ some i
    → Alive o w
    → request_read_state ≤ i
    → Access w × (i ≡ copy_state → (w.s.reply ≡ rep_success) × ((j : Interest) × Paired w j))
sound_served none i w e h low = absurd (cc)
sound_served (some j) i w e (t, f, s, h) low =
    let same : i ≡ number t = sym (some_inj e) ∙ f in
    let (a, c) = stage-Served t w s h (omega (arith, same)) in (a, λ q. c (sym same ∙ q))

-- On every connection that is reached and not yet freed, in every state from the reading of the
-- request on: either the greeting was answered without authentication, and then none was required
-- when it was, or the client was asked for a name and a password, and the table of users, as it was
-- when these were answered, maps that name to that password. Bytes are relayed only behind a reply
-- of success, and with both descriptors there.
pub Reaches-Access :
    {c : Connection} (i : ℕ)
    → Reaches c
    → c.current ≡ some i
    → request_read_state ≤ i
    → c.world.destroyed ≡ false
    → Access c.world
      × (i ≡ copy_state → (c.world.s.reply ≡ rep_success) × ((j : Interest) × Paired c.world j))
Reaches-Access {c} i r e low kept = served_in (Reaches-IsSound r)
  where
    served_in :
        IsSound c
        → Access c.world
          × (i ≡ copy_state → (c.world.s.reply ≡ rep_success) × ((j : Interest) × Paired c.world j))
    served_in (inl h) = sound_served c.current i c.world e h low
    served_in (inr h) = absurd (false≢true (sym kept ∙ h.4))
