-- ===== src/Selector/Rounds/Sound.antt =====
-- The calls of a round of src/selector.c on a sound table, with callbacks that leave it sound.
use tpe2026c1_socks.Net.{Interest}
use tpe2026c1_socks.Prelude.{
  All, Bool, List, Option, ==_iff, Bool-cases, [], arith, false, get_elem?, get_elem?_in, inl, inr,
  none, refl, some, suc, true, zero, ℕ, ◌+◌, ◌<◌, ◌==◌, ◌>>=◌, ◌∷◌, ◌≡◌, ◌≤◌, ap, ◌&&◌, ◌∙◌, sym,
}
use tpe2026c1_socks.Selector.{Item, Selector}
use tpe2026c1_socks.Selector.Rounds.{
  Callbacks, Member, Ready, blocking, reading, writing, call_item, notify_jobs, turn, turns,
  write_turn,
}
use tpe2026c1_socks.Selector.Table.{IsValid, Stands, registered, entry}
use tpe2026c1_socks.Stm.Handlers.{here}

-- The interest that the call of a member needs.
abbrev pub Fits : Member → Interest → Type 0
Fits reading i = i.op_read ≡ true
Fits writing i = i.op_write ≡ true
Fits blocking i = Unit

-- An unused item has no interest in writing.
abbrev pub Quiet : {D : Type 0} → Selector D → Type 0
Quiet {D} s =
    (k : ℕ) (it : Item D)
    → get_elem? s.fds k ≡ some it
    → it.fd ≡ none
    → it.interest.op_write ≡ false

module _ {D W : Type 0} (P : (ℕ → Option (Interest × D)) → W → Type 0) (size : ℕ)
    (jobs : List ℕ) where
  -- The table is sound, of this size and with these jobs, and `P` relates it to the rest.
  abbrev pub Good : Selector D → W → Type 0
  Good s w =
      IsValid s × Quiet s × (s.fd_size ≡ size) × (s.resolution_jobs ≡ jobs) × P (registered s.fds) w

  abbrev pub Ends : Option (Selector D × W) → Type 0
  Ends r = (s : Selector D) × (w : W) × (r ≡ some (s, w)) × Good s w

  -- A callback returns and keeps all this, where its descriptor is registered with the interest.
  abbrev pub KeepsGood : Callbacks D W → Type 0
  KeepsGood run =
      (ev : Member) (h : D) (i : Interest) (fd : ℕ) (d : D) (s : Selector D) (w : W)
      → Good s w
      → registered s.fds fd ≡ some (i, h)
      → Fits ev i
      → Ends (run ev h fd d (s, w))

pub and_right : (a b : Bool) → (a && b) ≡ true → b ≡ true
and_right true b e = e
and_right false b e = absurd (cc)

module _ {D W : Type 0} (run : Callbacks D W) (P : (ℕ → Option (Interest × D)) → W → Type 0)
    (size : ℕ) (jobs : List ℕ) (keeps : KeepsGood P size jobs run) where
  pub called :
      (b : Bool) (ev : Member) (h : D) (i : Interest) (fd : ℕ) (d : D) (s : Selector D) (w : W)
      → Good P size jobs s w
      → registered s.fds fd ≡ some (i, h)
      → (b ≡ true → Fits ev i)
      → Ends P size jobs (call_item run b ev (some h) fd (some d) (s, w))
  unfolding call_item
  called true ev h i fd d s w g e f = keeps ev h i fd d s w g e (f refl)
  called false ev h i fd d s w g e f = (s, w, refl, g)

  -- The entry of a used item.
  pub entry_at :
      (s : Selector D) (i : ℕ) (it : Item D) (h : D)
      → get_elem? s.fds i ≡ some it
      → it.fd ≡ some i
      → it.attached ≡ some h
      → registered s.fds i ≡ some (it.interest, h)
  entry_at s i it h e f a = ap entry e ∙ rw (f, a) refl

  pub item_inside :
      (s : Selector D) (w : W) (i : ℕ)
      → i < size
      → Good P size jobs s w
      → (it : Item D) × (get_elem? s.fds i ≡ some it) × Stands s.max_fd i it
  item_inside s w i h (v, q, z, j, p) =
      let (it, e) = get_elem?_in s.fds i (omega (arith, v.sized, z)) in (it, e, v.stands i it e)

  write_turn-Ends :
      (r : Ready) (i n : ℕ) (d : D) (s : Selector D) (w : W)
      → i < size
      → size ≡ n
      → Good P size jobs s w
      → Ends P size jobs (write_turn run r i n i (some d) (s, w))
  unfolding write_turn
  write_turn-Ends r i n d s w h m (v, q, z, j, p) = elim (Bool-cases (r.slave_w i)) [
    | inl t ↦
        let y : (s.fd_size == n) ≡ true = (==_iff s.fd_size n).1 (z ∙ m) in
        let (it', e, st) = item_inside s w i h (v, q, z, j, p) in
        rw (t, y, e, ◌>>=◌) (at_item it' e st)
    | inr t ↦ rw t (s, w, refl, (v, q, z, j, p))
  ]
    where
      at_item :
          (it' : Item D)
          → get_elem? s.fds i ≡ some it'
          → Stands s.max_fd i it'
          → Ends P size jobs
              (call_item run it'.interest.op_write writing it'.attached i (some d) (s, w))
      at_item it' e (inl free) =
          let no_write : it'.interest.op_write ≡ false = q i it' e free in
          rw (call_item, no_write) (s, w, refl, (v, q, z, j, p))
      at_item it' e (inr (here, low, (k, b))) = rw b (
          called it'.interest.op_write writing k it'.interest i d s w (v, q, z, j, p)
            (entry_at s i it' k e here b) (λ y. y))

  pub turn-Ends :
      (r : Ready) (i : ℕ) (s : Selector D) (w : W)
      → i < size
      → Good P size jobs s w
      → Ends P size jobs (turn run r i (s, w))
  unfolding turn
  turn-Ends r i s w h g = let (it, e, st) = item_inside s w i h g in at_item it e st
    where
      at_item :
          (it : Item D)
          → get_elem? s.fds i ≡ some it
          → Stands s.max_fd i it
          → Ends P size jobs (turn run r i (s, w))
      at_item it e (inl free) = rw (turn, e, ◌>>=◌, free) (s, w, refl, g)
      at_item it e (inr (here, low, (d, a))) =
          let b : Bool = r.slave_r i && it.interest.op_read in
          let (s1, w1, e1, g1) =
            called b reading d it.interest i d s w g (entry_at s i it d e here a)
              (and_right (r.slave_r i) it.interest.op_read) in
          rw (turn, e, ◌>>=◌, here, a, e1) (write_turn-Ends r i s.fd_size d s1 w1 h (sym g.2) g1)

  pub turns-Ends :
      (r : Ready) (m i : ℕ) (s : Selector D) (w : W)
      → i + m ≤ size
      → Good P size jobs s w
      → Ends P size jobs (turns run r m i (s, w))
  unfolding turns
  turns-Ends r zero i s w h g = (s, w, refl, g)
  turns-Ends r (suc m) i s w h g =
      let (s1, w1, e, g1) = turn-Ends r i s w (omega (arith, h)) g in
      rw (turns, e, ◌>>=◌) (turns-Ends r m (suc i) s1 w1 (omega (arith, h)) g1)

  pub notify_jobs-Ends :
      (js : List ℕ) (s : Selector D) (w : W)
      → All (λ j. j < size) js
      → Good P size jobs s w
      → Ends P size jobs (notify_jobs run js (s, w))
  unfolding notify_jobs
  notify_jobs-Ends [] s w h g = (s, w, refl, g)
  notify_jobs-Ends (j ∷ js) s w (low, h) g =
      let (it, e, st) = item_inside s w j low g in
      at_item (λ s1 w1 g1. notify_jobs-Ends js s1 w1 h g1) it e st
    where
      at_item :
          ((s1 : Selector D) (w1 : W)
            → Good P size jobs s1 w1
            → Ends P size jobs (notify_jobs run js (s1, w1)))
          → (it : Item D) → get_elem? s.fds j ≡ some it
          → Stands s.max_fd j it
          → Ends P size jobs (notify_jobs run (j ∷ js) (s, w))
      at_item then_rest it e (inl free) = rw (notify_jobs, e, ◌>>=◌, free) (then_rest s w g)
      at_item then_rest it e (inr (here, below, (d, a))) =
          let (s1, w1, e1, g1) =
            called true blocking d it.interest j d s w g (entry_at s j it d e here a) (λ y. tt) in
          rw (notify_jobs, e, ◌>>=◌, here, a, e1) (then_rest s1 w1 g1)
