-- ===== src/Selector/Grow.antt =====
-- `selector_register` of src/selector.c, with the table grown where that is needed.
use tpe2026c1_socks.Net.{Interest}
use tpe2026c1_socks.Prelude.{
  List, Option, [], ap, arith, get_elem?, inl, inr, length-append, length-replicate, none, refl,
  replicate, some, some_inj, suc, sym, zero, ℕ, ◌++◌, ◌+◌, ◌-◌, ◌<◌, ◌∙◌, ◌∷◌, ◌≡◌, ◌≢◌, ◌≤◌, ◌⊎◌,
  subst, Bool, false, if◌then◌else◌, ltb, lt→ltb, pos, true, ◌==◌, ◌>>=◌, dec_lt,
}
use tpe2026c1_socks.Selector.{
  Item, Selector, SelectorStatus, grow, items_max_size, register_at, selector_enomem,
  selector_fdinuse, selector_success, unused, ensure_capacity, register_room, register_valid,
  selector_register,
}
use tpe2026c1_socks.Selector.Register.{register_at_lem}
use tpe2026c1_socks.Selector.Table.{IsValid, Stands, registered, updated, wants}
use tpe2026c1_socks.Selector.Capacity.{next_capacity_lem}

module _ {D : Type 0} where
  pub unused_nowhere : (m k : ℕ) → registered {D = D} (replicate m unused) k ≡ none
  unused_nowhere zero k = refl
  unused_nowhere (suc m) zero = refl
  unused_nowhere (suc m) (suc k) = unused_nowhere m k

  registered-append :
      (fds : List (Item D)) (m k : ℕ) → registered (fds ++ replicate m unused) k ≡ registered fds k
  registered-append [] m k = unused_nowhere m k
  registered-append (it ∷ fds) m zero = refl
  registered-append (it ∷ fds) m (suc k) = registered-append fds m k

  pub unused_item :
      (m k : ℕ) {it : Item D} → get_elem? (replicate m unused) k ≡ some it → it.fd ≡ none
  unused_item zero k e = absurd (cc)
  unused_item (suc m) zero e = sym (ap (λ t. t.fd) (some_inj e))
  unused_item (suc m) (suc k) e = unused_item m k e

  item_of :
      (fds : List (Item D)) (m k : ℕ) {it : Item D}
      → get_elem? (fds ++ replicate m unused) k ≡ some it
      → (get_elem? fds k ≡ some it) ⊎ (it.fd ≡ none)
  item_of [] m k e = inr (unused_item m k e)
  item_of (jt ∷ fds) m zero e = inl e
  item_of (jt ∷ fds) m (suc k) e = item_of fds m k e

  grow-IsValid :
      (s : Selector D) (size : ℕ)
      → IsValid s
      → s.fd_size ≤ size
      → size ≤ items_max_size + 1
      → IsValid (grow s size)
  unfolding grow
  grow-IsValid s size v h b = record {
    sized =
        length-append s.fds (replicate (size - s.fd_size) unused)
        ∙ omega (arith, v.sized, length-replicate {A = Item D} (size - s.fd_size) unused);
    bounded = b;
    below = omega (arith, v.below);
    stands = λ k it e. standing k it (item_of s.fds (size - s.fd_size) k e);
    reads = λ k.
        v.reads k
        ∙ ap (wants (λ i. i.op_read)) (sym (registered-append s.fds (size - s.fd_size) k));
    writes = λ k.
        v.writes k
        ∙ ap (wants (λ i. i.op_write)) (sym (registered-append s.fds (size - s.fd_size) k));
  }
    where
      standing :
          (k : ℕ) (it : Item D)
          → (get_elem? s.fds k ≡ some it) ⊎ (it.fd ≡ none)
          → Stands s.max_fd k it
      standing k it (inl e) = v.stands k it e
      standing k it (inr e) = inl e

-- What registering leaves: where the descriptor was free and the call succeeds, the map with the
-- new entry; else the map as it was.
abbrev pub Registers :
    {D : Type 0} → Selector D → ℕ → D → Interest → Option (SelectorStatus × Selector D) → Type 0
Registers {D} s n d i r =
    (st : SelectorStatus) × (s' : Selector D) × (r ≡ some (st, s'))
    × IsValid s'
    × (((registered s.fds n ≡ none)
          × (st ≡ selector_success)
          × ((k : ℕ) → registered s'.fds k ≡ updated n (some (i, d)) (registered s.fds) k))
        ⊎ ((st ≢ selector_success) × ((k : ℕ) → registered s'.fds k ≡ registered s.fds k)))

in_use : selector_fdinuse ≢ selector_success
in_use e = cc

no_memory : selector_enomem ≢ selector_success
no_memory e = cc

module _ {D : Type 0} (s : Selector D) (n : ℕ) (d : D) (i : Interest) where
  in_table : IsValid s → n < s.fd_size → Registers s n d i (register_at s n d i)
  in_table v h =
      let (st, s', e, o) = register_at_lem s v n h d i (omega (arith, v.bounded)) in
      let (w, left) = outcome_of v st s' o in (st, s', e, w, left)
    where
      outcome_of :
          IsValid s
          → (st : SelectorStatus) (s' : Selector D)
          → (((registered s.fds n ≡ none)
                × (st ≡ selector_success)
                × (IsValid s'
                    × ((k : ℕ)
                        → registered s'.fds k ≡ updated n (some (i, d)) (registered s.fds) k)))
              ⊎ ((registered s.fds n ≢ none) × (st ≡ selector_fdinuse) × (s' ≡ s)))
          → IsValid s'
            × (((registered s.fds n ≡ none)
                  × (st ≡ selector_success)
                  × ((k : ℕ) → registered s'.fds k ≡ updated n (some (i, d)) (registered s.fds) k))
                ⊎ ((st ≢ selector_success) × ((k : ℕ) → registered s'.fds k ≡ registered s.fds k)))
      outcome_of v st s' (inl (f, q, (w, m))) = (w, inl (f, q, m))
      outcome_of v st s' (inr (f, q, same)) = (
        subst IsValid (sym same) v,
        inr (λ z. in_use (sym q ∙ z), λ k. ap (λ t. registered t.fds k) same),
      )

module _ {D : Type 0} (s : Selector D) (n : ℕ) (d : D) (i : Interest) where
  -- With the table grown, the descriptor is free: it stood behind the table.
  grown-Registers :
      (size : ℕ)
      → IsValid s
      → s.fd_size ≤ n
      → n < size
      → size ≤ items_max_size + 1
      → Registers s n d i (register_at (grow s size) n d i)
  unfolding grow
  grown-Registers size v h low b =
      let g : Selector D = grow s size in
      let w : IsValid g = grow-IsValid s size v (omega arith) b in
      let (st, s', e, u, o) = in_table g n d i w low in (st, s', e, u, as_before size o)
    where
      as_before :
          (size : ℕ) {st : SelectorStatus} {f : ℕ → Option (Interest × D)}
          → (((registered (grow s size).fds n ≡ none)
                × (st ≡ selector_success)
                × ((k : ℕ) → f k ≡ updated n (some (i, d)) (registered (grow s size).fds) k))
              ⊎ ((st ≢ selector_success) × ((k : ℕ) → f k ≡ registered (grow s size).fds k)))
          → (((registered s.fds n ≡ none)
                × (st ≡ selector_success)
                × ((k : ℕ) → f k ≡ updated n (some (i, d)) (registered s.fds) k))
              ⊎ ((st ≢ selector_success) × ((k : ℕ) → f k ≡ registered s.fds k)))
      as_before size (inl (free, ok, m)) = inl (
        sym (registered-append s.fds (size - s.fd_size) n) ∙ free,
        ok,
        λ k.
            m k
            ∙ ap (λ z. if k == n then some (i, d) else z)
                (registered-append s.fds (size - s.fd_size) k),
      )
      as_before size (inr (bad_status, m)) =
          inr (bad_status, λ k. m k ∙ registered-append s.fds (size - s.fd_size) k)

  register_valid_lem :
      (allocates : Bool)
      → IsValid s
      → n < items_max_size
      → n ≢ s.fd_size
      → Registers s n d i (register_valid allocates s n d i)
  unfolding register_valid ensure_capacity register_room
  register_valid_lem allocates v h ne = elim (dec_lt n s.fd_size) [
    | yes inside ↦
        let t : ltb s.fd_size n ≡ false = ground arith in rw t (in_table s n d i v inside)
    | no outside ↦
        let t : ltb s.fd_size n ≡ true = lt→ltb _ _ (omega arith) in
        let u : ltb n s.fd_size ≡ false = ground arith in
        let w : ltb items_max_size n ≡ false = ground arith in
        let (size, e, low, high) = next_capacity_lem n (omega arith) in
        rw (t, u, w, e, ◌>>=◌) (with_memory size v low high allocates (omega arith))
  ]
    where
      with_memory :
          (size : ℕ)
          → IsValid s
          → n < size
          → size ≤ items_max_size + 1
          → (b : Bool) → s.fd_size ≤ n
          → Registers s n d i (
              register_room n d i
                (if b then (selector_success, grow s size) else (selector_enomem, s)))
      with_memory size v low high true behind = grown-Registers size v behind low high
      with_memory size v low high false behind =
          (selector_enomem, s, refl, v, inr (no_memory, λ k. refl))

-- `selector_register` of a descriptor below FD_SETSIZE on a sound table whose size is not that
-- descriptor does not abort, whether or not the table can grow. Either it succeeds, the descriptor
-- was free, and the map gets exactly this entry; or it reports an error and the map stays. The
-- table stays sound either way: every item stands at its own descriptor, none above the maximum,
-- and the two sets hold exactly the registered descriptors with that interest.
pub selector_register_lem :
    {D : Type 0} (allocates : Bool) (s : Selector D) (n : ℕ) (d : D) (i : Interest)
    → IsValid s
    → n < items_max_size
    → n ≢ s.fd_size
    → Registers s n d i (selector_register allocates s (pos n) (some d) i)
unfolding selector_register
selector_register_lem allocates s n d i v h ne =
    rw (selector_register, lt→ltb _ _ h) (register_valid_lem s n d i allocates v h ne)
