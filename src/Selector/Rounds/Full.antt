-- ===== src/Selector/Rounds/Full.antt =====
-- Rounds of src/selector.c on a table of the largest size, which never moves.
use tpe2026c1_socks.Net.{Interest}
use tpe2026c1_socks.Prelude.{
  Bool, List, Option, Ssize, ap, arith, false, inl, inr, ltb, lt→ltb, negsuc, none, pos, refl, some,
  subst, sym, true, ℕ, ◌+◌, ◌<◌, ◌>>=◌, ◌∙◌, ◌≡◌, dec_lt, All, All,
}
use tpe2026c1_socks.Selector.{
  Selector, SelectorStatus, interest_valid, items_max_size, register_valid, selector_iargs,
  selector_register, selector_set_interest, selector_unregister_fd, unregister_valid, valid_fd,
}
use tpe2026c1_socks.Selector.Register.{interest_valid_lem, register_at_lem}
use tpe2026c1_socks.Selector.Rounds.{
  Member, blocking, reading, writing, SelectResult, selector_select, SelectResult,
}
use tpe2026c1_socks.Selector.Rounds.Sound.{Fits, Good, KeepsGood, Quiet}
use tpe2026c1_socks.Selector.Table.{IsValid, registered}
use tpe2026c1_socks.Selector.Unregister.{unregister_valid_lem}
use tpe2026c1_socks.Selector.Rounds.Select.{Serves, selector_select_lem}
use tpe2026c1_socks.Selector.Rounds.Programs.{
  Anything, Program, Request, asks, ends, may_call, perform, registers, run_program, running,
  sets_interest, unregisters, without_close,
}
use tpe2026c1_socks.Selector.Rounds.Frames.{
  Frame, interest_valid-Frame, register_at-Frame, unregister_valid-Frame,
}

fitting :
    {D : Type 0} (ev : Member) (i : Interest) (h : D) → Fits ev i → may_call ev (some (i, h)) ≡ true
fitting reading i h f = f
fitting writing i h f = f
fitting blocking i h f = refl

abbrev pub full_size : ℕ
full_size = items_max_size + 1

module _ {D W : Type 0} (allocates : Bool) (jobs : List ℕ) where
  abbrev Keeps : Selector D → W → Type 0
  Keeps = Good Anything full_size jobs

  -- A call of the selector ends, and keeps the table.
  abbrev Performs : W → Option (SelectorStatus × Selector D × Option D) → Type 0
  Performs w r =
      (st : SelectorStatus) × (s' : Selector D) × (c : Option D) × (r ≡ some (st, s', c))
      × Keeps s' w

  framed : (s s' : Selector D) (w : W) → Keeps s w → IsValid s' → Frame s s' → Keeps s' w
  framed s s' w (v, q, z, j, p) v' (a, b, quiet) = (v', quiet q, a ∙ z, b ∙ j, p)

  register-Performs :
      (s : Selector D) (w : W) (n : ℕ) (d : D) (i : Interest)
      → n < items_max_size
      → Keeps s w
      → Performs w (without_close (register_valid allocates s n d i))
  unfolding register_valid
  register-Performs s w n d i low (v, q, z, j, p) =
      let inside : n < s.fd_size = omega (arith, low, z) in
      let t : ltb s.fd_size n ≡ false = ground (arith, inside) in
      let (st, s', e, o) = register_at_lem s v n inside d i (omega (arith, low)) in
      let f : Frame s s' = register_at-Frame s s' n d i st (omega (arith, inside, v.sized)) e in
      let v' : IsValid s' = elim o [
        | inl (free, ok, (sound, m)) ↦ sound
        | inr (used, bad, same) ↦ subst IsValid (sym same) v
      ] in
      (st, s', none, rw (t, e) refl, framed s s' w (v, q, z, j, p) v' f)

  unregister-Performs :
      (s : Selector D) (w : W) (n : ℕ)
      → n < items_max_size
      → Keeps s w
      → Performs w (unregister_valid s n)
  unregister-Performs s w n low (v, q, z, j, p) =
      let inside : n < s.fd_size = omega (arith, low, z) in
      let (st, s', c, e, o) = unregister_valid_lem s v n inside in
      let f : Frame s s' = unregister_valid-Frame s s' n st c (omega (arith, inside, v.sized)) e in
      let v' : IsValid s' = elim o [
        | inl (free, bad, same, nothing) ↦ subst IsValid (sym same) v
        | inr (i, d, there, ok, closed, (sound, m)) ↦ sound
      ] in
      (st, s', c, e, framed s s' w (v, q, z, j, p) v' f)

  interest-Performs :
      (s : Selector D) (w : W) (n : ℕ) (i : Interest)
      → n < items_max_size
      → Keeps s w
      → Performs w (without_close (interest_valid s n i))
  interest-Performs s w n i low (v, q, z, j, p) =
      let inside : n < s.fd_size = omega (arith, low, z) in
      let (st, s', e, o) = interest_valid_lem s v n inside i in
      let f : Frame s s' = interest_valid-Frame s s' n i st (omega (arith, inside, v.sized)) e in
      let v' : IsValid s' = elim o [
        | inl (free, bad, same) ↦ subst IsValid (sym same) v
        | inr (i', d, there, ok, (sound, m)) ↦ sound
      ] in
      (st, s', none, rw e refl, framed s s' w (v, q, z, j, p) v' f)

  by_descriptor :
      (s : Selector D) (w : W) (fd : Ssize)
      (f : ℕ → Option (SelectorStatus × Selector D × Option D))
      → Keeps s w
      → ((n : ℕ) → n < items_max_size → Performs w (f n))
      → Performs w (elim (valid_fd fd) [ none ↦ some (selector_iargs, s, none) | some n ↦ f n ])
  by_descriptor s w (negsuc n) f k h = (selector_iargs, s, none, refl, k)
  by_descriptor s w (pos n) f k h = elim (dec_lt n items_max_size) [
    | yes low ↦ rw (lt→ltb _ _ low) (h n low)
    | no high ↦
        let t : ltb n items_max_size ≡ false = ground (arith, high) in
        rw t (selector_iargs, s, none, refl, k)
  ]

  perform-Performs :
      (q : Request D) (s : Selector D) (w : W) → Keeps s w → Performs w (perform allocates s q)
  unfolding perform selector_register selector_unregister_fd selector_set_interest
  perform-Performs (registers (negsuc n) h i) s w k = (selector_iargs, s, none, refl, k)
  perform-Performs (registers (pos n) none i) s w k = elim (dec_lt n items_max_size) [
    | yes low ↦ rw (perform, selector_register, lt→ltb _ _ low) (selector_iargs, s, none, refl, k)
    | no high ↦
        let t : ltb n items_max_size ≡ false = ground (arith, high) in
        rw (perform, selector_register, t) (selector_iargs, s, none, refl, k)
  ]
  perform-Performs (registers (pos n) (some d) i) s w k = elim (dec_lt n items_max_size) [
    | yes low ↦ rw (perform, selector_register, lt→ltb _ _ low) (register-Performs s w n d i low k)
    | no high ↦
        let t : ltb n items_max_size ≡ false = ground (arith, high) in
        rw (perform, selector_register, t) (selector_iargs, s, none, refl, k)
  ]
  perform-Performs (unregisters fd) s w k =
      by_descriptor s w fd (unregister_valid s) k (λ n low. unregister-Performs s w n low k)
  perform-Performs (sets_interest (negsuc n) i) s w k = (selector_iargs, s, none, refl, k)
  perform-Performs (sets_interest (pos n) i) s w k = elim (dec_lt n items_max_size) [
    | yes low ↦
        rw (perform, selector_set_interest, lt→ltb _ _ low) (interest-Performs s w n i low k)
    | no high ↦
        let t : ltb n items_max_size ≡ false = ground (arith, high) in
        rw (perform, selector_set_interest, t) (selector_iargs, s, none, refl, k)
  ]

  run_program-Keeps :
      (x : Program D W) (s : Selector D) (w : W)
      → Keeps s w
      → (s' : Selector D) × (w' : W) × (run_program allocates x s ≡ some (s', w')) × Keeps s' w'
  unfolding run_program
  run_program-Keeps (ends w') s w k = (s, w', refl, k)
  run_program-Keeps (asks q next) s w k =
      let (st, s1, c, e, k1) = perform-Performs q s w k in
      let (s2, w2, e2, k2) = run_program-Keeps (next st c) s1 w k1 in
      (s2, w2, rw (run_program, e, ◌>>=◌) e2, k2)

  pub running-KeepsGood :
      (programs : Member → D → ℕ → D → W → Program D W)
      → KeepsGood Anything full_size jobs (running allocates programs)
  running-KeepsGood programs ev h i fd d s w k there f =
      let may : may_call ev (registered s.fds fd) ≡ true =
        ap (may_call ev) there ∙ fitting ev i h f in
      rw may (run_program-Keeps (programs ev h fd d w) s w k)

-- A round on a sound table of the largest size, whose jobs are for descriptors inside it and where
-- an unused item has no interest in writing, with whatever callbacks that use the selector only
-- through registering, unregistering and setting interests, on whatever descriptors, and whatever
-- `pselect` returns. The round ends and nothing in it aborts; in particular a member is only called
-- on a descriptor that is registered, and with the interest that the member is for, at the time of
-- the call. With success the table is sound, of the same size, and no job is left; with SELECTOR_IO
-- nothing changed.
pub selector_select-Serves :
    {D W : Type 0} (allocates : Bool) (programs : Member → D → ℕ → D → W → Program D W)
    (s : Selector D) (w : W) (result : SelectResult)
    → IsValid s
    → Quiet s
    → s.fd_size ≡ full_size
    → All (λ j. j < full_size) s.resolution_jobs
    → Serves Anything s w (selector_select (running allocates programs) result (s, w))
selector_select-Serves allocates programs s w result v q z low =
    selector_select_lem (running allocates programs) Anything s
      (subst (λ n. KeepsGood Anything n s.resolution_jobs (running allocates programs)) (sym z)
        (running-KeepsGood allocates s.resolution_jobs programs))
      (subst (λ n. All (λ j. j < n) s.resolution_jobs) (sym z) low) w result v q tt
