-- ===== src/Selector/Rounds/Order.antt =====
-- The order in which `handle_iteration` of src/selector.c serves the descriptors, by the map of
-- those that are registered.
use tpe2026c1_socks.Net.{Interest}
use tpe2026c1_socks.Prelude.{
  ==_iff, Bool, Bool-cases, List, Option, ap, arith, false, get_elem?, if◌then◌else◌, inl, inr,
  none, refl, some, suc, sym, true, zero, ℕ, ◌&&◌, ◌+◌, ◌<◌, ◌==◌, ◌>>=◌, ◌∙◌, ◌≡◌, ◌≤◌,
}
use tpe2026c1_socks.Selector.{Item, Selector}
use tpe2026c1_socks.Selector.Rounds.{
  Callbacks, Member, Ready, call_item, handle_iteration, reading, turn, turns, write_turn, writing,
}
use tpe2026c1_socks.Selector.Rounds.Full.{full_size, running-KeepsGood}
use tpe2026c1_socks.Selector.Rounds.Programs.{Anything, Program, running}
use tpe2026c1_socks.Selector.Rounds.Sound.{
  Good, KeepsGood, Quiet, and_right, called, entry_at, item_inside, turn-Ends, turns-Ends,
}
use tpe2026c1_socks.Selector.Table.{IsValid, Stands, entry, registered, unused_none}

module _ {D W : Type 0} (run : Callbacks D W) where
  -- The write member of `n`, if `pselect` found it writable and it is registered for writing now;
  -- `d` is the data that was registered when its turn began.
  abbrev pub serve_write : Ready → ℕ → D → Selector D × W → Option (Selector D × W)
  serve_write r n d (s, w) =
      if r.slave_w n
      then elim (registered s.fds n) [
        | none ↦ some (s, w)
        | some e ↦ if e.0.op_write then run writing e.1 n d (s, w) else some (s, w)
      ]
      else some (s, w)

  -- The turn of `n`: nothing where it is not registered; else its read member, if it was found
  -- readable and is registered for reading, and then its write member.
  abbrev pub serve : Ready → ℕ → Selector D × W → Option (Selector D × W)
  serve r n (s, w) = elim (registered s.fds n) [
    | none ↦ some (s, w)
    | some e ↦ (do
      st ← (if r.slave_r n && e.0.op_read then run reading e.1 n e.1 (s, w) else some (s, w))
      serve_write r n e.1 st)
  ]

  -- The turns of the `m` descriptors from `n` on, in order.
  abbrev pub serve_all : Ready → ℕ → ℕ → Selector D × W → Option (Selector D × W)
  serve_all r zero n st = some st
  serve_all r (suc m) n st = do st' ← serve r n st; serve_all r m (suc n) st'

module _ {D W : Type 0} (run : Callbacks D W) (P : (ℕ → Option (Interest × D)) → W → Type 0)
    (size : ℕ) (jobs : List ℕ) (keeps : KeepsGood P size jobs run) (r : Ready) where
  write_turn-serve :
      (i n : ℕ) (d : D) (s : Selector D) (w : W)
      → i < size
      → size ≡ n
      → Good P size jobs s w
      → write_turn run r i n i (some d) (s, w) ≡ serve_write run r i d (s, w)
  unfolding write_turn call_item
  write_turn-serve i n d s w h m (v, q, z, j, p) =
      let (it, e, st) = item_inside run P size jobs keeps s w i h (v, q, z, j, p) in
      let y : (s.fd_size == n) ≡ true = (==_iff s.fd_size n).1 (z ∙ m) in
      elim (Bool-cases (r.slave_w i)) [
        | inl t ↦ elim st [
          | inl free ↦
              let f : registered s.fds i ≡ none = ap entry e ∙ unused_none it free in
              let no_write : it.interest.op_write ≡ false = q i it e free in
              rw (t, y, f, e, ◌>>=◌, no_write) refl
          | inr (here, low, (k, a)) ↦
              let f : registered s.fds i ≡ some (it.interest, k) =
                entry_at run P size jobs keeps s i it k e here a in
              rw (t, y, f, e, ◌>>=◌, a) refl
        ]
        | inr t ↦ rw t refl
      ]

  turn-serve :
      (i : ℕ) (s : Selector D) (w : W)
      → i < size
      → Good P size jobs s w
      → turn run r i (s, w) ≡ serve run r i (s, w)
  unfolding turn
  turn-serve i s w h g =
      let (it, e, st) = item_inside run P size jobs keeps s w i h g in at_item it e st
    where
      at_item :
          (it : Item D)
          → get_elem? s.fds i ≡ some it
          → Stands s.max_fd i it
          → turn run r i (s, w) ≡ serve run r i (s, w)
      at_item it e (inl free) =
          let f : registered s.fds i ≡ none = ap entry e ∙ unused_none it free in
          let l : turn run r i (s, w) ≡ some (s, w) = rw (turn, e, ◌>>=◌, free) refl in
          let k : serve run r i (s, w) ≡ some (s, w) = rw (serve, f) refl in l ∙ sym k
      at_item it e (inr (here, low, (d, a))) =
          let f : registered s.fds i ≡ some (it.interest, d) =
            entry_at run P size jobs keeps s i it d e here a in
          let b : Bool = r.slave_r i && it.interest.op_read in
          let (s1, w1, e1, g1) =
            called run P size jobs keeps b reading d it.interest i d s w g f
              (λ t. and_right (r.slave_r i) it.interest.op_read t) in
          let e2 : (if b then run reading d i d (s, w) else some (s, w)) ≡ some (s1, w1) =
            unfold call_item in e1 in
          let l : turn run r i (s, w) ≡ write_turn run r i s.fd_size i (some d) (s1, w1) =
            rw (turn, e, ◌>>=◌, here, a, e1) refl in
          let k : serve run r i (s, w) ≡ serve_write run r i d (s1, w1) =
            rw (serve, f) (ap (λ o. o >>= serve_write run r i d) e2) in
          l ∙ write_turn-serve i s.fd_size d s1 w1 h (sym g.2) g1 ∙ sym k

  turns-serve_all :
      (m i : ℕ) (s : Selector D) (w : W)
      → i + m ≤ size
      → Good P size jobs s w
      → turns run r m i (s, w) ≡ serve_all run r m i (s, w)
  unfolding turns
  turns-serve_all zero i s w h g = refl
  turns-serve_all (suc m) i s w h g =
      let (s1, w1, e, g1) = turn-Ends run P size jobs keeps r i s w (omega (arith, h)) g in
      let f : serve run r i (s, w) ≡ some (s1, w1) =
        sym (turn-serve i s w (omega (arith, h)) g) ∙ e in
      ap (λ o. o >>= turns run r m (suc i)) e
      ∙ turns-serve_all m (suc i) s1 w1 (omega (arith, h)) g1
      ∙ sym (ap (λ o. o >>= serve_all run r m (suc i)) f)

-- `handle_iteration` on a sound table of the largest size, where an unused item has no interest in
-- writing, with whatever callbacks that use the selector only through its operations, does exactly
-- this: for each descriptor up to the one that
-- was the largest at the start, in order, nothing where it is not registered by then; else its read
-- member, if `pselect` found it readable and it is registered for reading by then; and after that
-- the write member of the one that is registered there now, if `pselect` found it writable and it
-- is registered for writing now. What a callback changes in the table counts from there on, and the
-- round ends with a sound table.
pub handle_iteration-serve_all :
    {D W : Type 0} (allocates : Bool) (programs : Member → D → ℕ → D → W → Program D W) (r : Ready)
    (s : Selector D) (w : W)
    → IsValid s
    → Quiet s
    → s.fd_size ≡ full_size
    → (s' : Selector D) × (w' : W) × (handle_iteration (running allocates programs) r (s, w)
        ≡ some (s', w'))
      × (serve_all (running allocates programs) r (s.max_fd + 1) 0 (s, w) ≡ some (s', w'))
      × IsValid s'
unfolding handle_iteration
handle_iteration-serve_all allocates programs r s w v q z =
    let run : Callbacks _ _ = running allocates programs in
    let keeps : KeepsGood Anything full_size s.resolution_jobs run =
      running-KeepsGood allocates s.resolution_jobs programs in
    let g : Good Anything full_size s.resolution_jobs s w = (v, q, z, refl, tt) in
    let low : 0 + (s.max_fd + 1) ≤ full_size = omega (arith, v.below, z) in
    let (s', w', e, g') =
      turns-Ends run Anything full_size s.resolution_jobs keeps r (s.max_fd + 1) 0 s w low g in
    (
      s',
      w',
      e,
      sym (
            turns-serve_all run Anything full_size s.resolution_jobs keeps r (s.max_fd + 1) 0 s w
              low g)
          ∙ e,
      g'.0,
    )
