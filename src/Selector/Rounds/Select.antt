-- ===== src/Selector/Rounds/Select.antt =====
-- `selector_select` of src/selector.c on a sound table, with callbacks that leave it sound.
use tpe2026c1_socks.Selector.Rounds.Sound.{Good, KeepsGood, Quiet, notify_jobs-Ends, turns-Ends}
use tpe2026c1_socks.Net.{Interest}
use tpe2026c1_socks.Prelude.{
  All, Option, [], arith, inl, inr, refl, some, ℕ, ◌+◌, ◌<◌, ◌>>=◌, ◌≡◌, sym, ◌⊎◌, subst,
}
use tpe2026c1_socks.Selector.{Selector, SelectorStatus, selector_io, selector_success}
use tpe2026c1_socks.Selector.Rounds.{
  Callbacks, SelectResult, eagain, ebadf, eintr, handle_block_notifications, handle_iteration,
  notified, other_errno, select_failed, select_ready, selector_select,
}
use tpe2026c1_socks.Selector.Table.{IsValid, registered}

-- What a round leaves: with success, a sound table of the same size without jobs, and the relation
-- `P`; where `pselect` failed, all as it was.
abbrev pub Serves :
    {D W : Type 0}
    → ((ℕ → Option (Interest × D)) → W → Type 0)
    → Selector D
    → W
    → Option (SelectorStatus × (Selector D × W))
    → Type 0
Serves {D} {W} P s w r =
    (st : SelectorStatus) × (s' : Selector D) × (w' : W) × (r ≡ some (st, (s', w')))
    × (((st ≡ selector_success)
          × IsValid s'
          × Quiet s'
          × (s'.fd_size ≡ s.fd_size)
          × (s'.resolution_jobs ≡ [])
          × P (registered s'.fds) w')
        ⊎ ((st ≡ selector_io) × (s' ≡ s) × (w' ≡ w)))

module _ {D W : Type 0} (run : Callbacks D W) (P : (ℕ → Option (Interest × D)) → W → Type 0)
    (s : Selector D) (keeps : KeepsGood P s.fd_size s.resolution_jobs run)
    (low : All (λ j. j < s.fd_size) s.resolution_jobs) where
  abbrev Kept : Selector D → W → Type 0
  Kept = Good P s.fd_size s.resolution_jobs

  notified-Serves : (w w0 : W) (s1 : Selector D) → Kept s1 w → Serves P s w0 (notified run (s1, w))
  unfolding notified handle_block_notifications
  notified-Serves w w0 s1 (v, q, z, j, p) =
      let (s2, w2, e, (v2, q2, z2, j2, p2)) =
        notify_jobs-Ends run P s.fd_size s.resolution_jobs keeps s1.resolution_jobs s1 w
          (subst (All (λ k. k < s.fd_size)) (sym j) low) (v, q, z, j, p) in
      (
        selector_success,
        record s2 { resolution_jobs = [] },
        w2,
        rw (e, ◌>>=◌) refl,
        inl (
          refl,
          record {
            sized = v2.sized;
            bounded = v2.bounded;
            below = v2.below;
            stands = v2.stands;
            reads = v2.reads;
            writes = v2.writes;
          },
          q2,
          z2,
          refl,
          p2,
        ),
      )

  -- `selector_select` on a sound table whose jobs are for descriptors inside it, where an unused
  -- item has no interest in writing, whatever `pselect` returns. Suppose that each callback, called
  -- where its descriptor is registered with the interest that the call is for, returns and leaves
  -- the table sound, its size and its jobs as they are, and a relation `P` between the registered
  -- descriptors and the rest of the program. Then the round ends and does not abort, and it calls
  -- no member that is missing: with success the table is sound, of the same size, no job is left,
  -- and `P` holds; with SELECTOR_IO nothing changed.
  pub selector_select_lem :
      (w : W) (result : SelectResult)
      → IsValid s
      → Quiet s
      → P (registered s.fds) w
      → Serves P s w (selector_select run result (s, w))
  unfolding selector_select handle_iteration
  selector_select_lem w (select_failed eagain) v q p = notified-Serves w w s (v, q, refl, refl, p)
  selector_select_lem w (select_failed eintr) v q p = notified-Serves w w s (v, q, refl, refl, p)
  selector_select_lem w (select_failed ebadf) v q p =
      (selector_io, s, w, refl, inr (refl, refl, refl))
  selector_select_lem w (select_failed other_errno) v q p =
      (selector_io, s, w, refl, inr (refl, refl, refl))
  selector_select_lem w (select_ready r) v q p =
      let (s1, w1, e, g) =
        turns-Ends run P s.fd_size s.resolution_jobs keeps r (s.max_fd + 1) 0 s w
          (omega (arith, v.below)) (v, q, refl, refl, p) in
      rw (e, ◌>>=◌) (notified-Serves w1 w s1 g)
