-- ===== src/Socks5/Done.antt =====
-- The end of a connection of src/socks5.c: the count of the descriptors that still use it.
use tpe2026c1_socks.Metrics.{metrics_connection_closed}
use tpe2026c1_socks.Prelude.{
  false, inl, inr, none, refl, true, ◌≡◌, ap, ◌∙◌, some, ℕ, ◌⊎◌, ==_iff, List, [], ◌==◌, ◌∷◌,
}
use tpe2026c1_socks.Socks5.Connect.{
  socks5_destroy, socksv5_close, unregister_client, unregister_origin, close_fd,
}
use tpe2026c1_socks.Socks5.Sound.{Linked}
use tpe2026c1_socks.Socks5.State.{World}
use tpe2026c1_socks.Socks5.Table.{socksv5_done, unregister_all}

-- The connection with both descriptors closed and its memory given back.
abbrev pub closed : World → World
closed w = record w {
  s = record (w.s) { references = 0 };
  g = record (w.g) { metrics = metrics_connection_closed w.g.metrics };
  client_interest = none;
  origin_interest = none;
  origins = [];
  destroyed = true;
}

-- The last descriptor to go takes the connection with it.
close_last :
    (w : World)
    → w.s.references ≡ 1
    → w.s.resolving ≡ false
    → socksv5_close w ≡ record w {
      s = record (w.s) { references = 0 };
      g = record (w.g) { metrics = metrics_connection_closed w.g.metrics };
      destroyed = true;
    }
unfolding socksv5_close socks5_destroy
close_last w r z = rw (r, z) refl

close_first :
    (w : World)
    → w.s.references ≡ 2
    → socksv5_close w ≡ record w { s = record (w.s) { references = 1 } }
unfolding socksv5_close
close_first w r = rw r refl

pub close_fd_same : (fd : ℕ) (ns : List ℕ) → close_fd fd (fd ∷ ns) ≡ ns
unfolding close_fd
close_fd_same fd ns = let t : (fd == fd) ≡ true = (==_iff fd fd).1 refl in rw t refl

-- The one socket of the origin is closed.
pub origin_closed :
    (w : World) {fd : ℕ}
    → w.s.origin_fd ≡ some fd
    → w.origins ≡ fd ∷ []
    → (elim w.s.origin_fd [ none ↦ w.origins | some n ↦ close_fd n w.origins ]) ≡ []
origin_closed w {fd} f q = rw f (ap (close_fd fd) q ∙ close_fd_same fd [])

-- What `socksv5_done` does, call by call: with the client's descriptor alone, its unregistering
-- closes the connection; with both, the first one only takes the descriptor from the selector and
-- from the count, and the second one closes the connection.
abbrev pub EndsInOrder : World → Type 0
EndsInOrder w =
    ((w.s.origin_fd ≡ none) × (socksv5_done w ≡ unregister_client w))
    ⊎ ((fd : ℕ) × (w.s.origin_fd ≡ some fd)
        × (unregister_client w
            ≡ record w { s = record (w.s) { references = 1 }; client_interest = none })
        × (socksv5_done w ≡ unregister_origin (unregister_client w)))

-- `socksv5_done` on a connection with one descriptor or two, counted by `references`, and no
-- resolver at work: every descriptor is unregistered, the count falls to 0, and the connection is
-- freed and counted as closed, once. With two descriptors the first unregistering neither frees the
-- connection nor counts it as closed; the second one does.
pub socksv5_done_lem :
    (w : World) → Linked w → w.s.resolving ≡ false → (socksv5_done w ≡ closed w) × EndsInOrder w
unfolding socksv5_done unregister_all unregister_client unregister_origin
socksv5_done_lem w (inl (f, o, r, q)) z = (
  ap (λ fd. unregister_all fd w) f
      ∙ close_last (record w { client_interest = none }) r z
      ∙ ap (λ i. record (closed w) { origin_interest = i; origins = w.origins }) o
      ∙ ap (λ ns. record (closed w) { origins = ns }) q,
  inl (f, ap (λ fd. unregister_all fd w) f),
)
socksv5_done_lem w (inr (i, (fd, f, o, r, q))) z =
    let w1 : World = record w { client_interest = none } in
    let w2 : World = record w1 { s = record (w1.s) { references = 1 }; origin_interest = none } in
    (
      ap (λ fd. unregister_all fd w) f
          ∙ ap unregister_origin (close_first w1 r)
          ∙ ap (λ ns. socksv5_close (record w2 { origins = ns })) (origin_closed w f q)
          ∙ close_last (record w2 { origins = [] }) refl z,
      inr (fd, f, close_first w1 r, ap (λ fd. unregister_all fd w) f),
    )
