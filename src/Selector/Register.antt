-- ===== src/Selector/Register.antt =====
-- The operations of src/selector.c on a sound table: each does to the map of registered descriptors
-- what its name says.
use tpe2026c1_socks.Selector.Table.{
  IsValid, Stands, Stands-le, entry, get_elem?-set_other, get_elem?-set_same, is_used-none,
  is_used-some, put-wants, registered, registered-set, unused_none, updated, wants,
}
use tpe2026c1_socks.Net.{Interest}
use tpe2026c1_socks.Prelude.{
  Bool, Option, ap, arith, get_elem?, get_elem?_in, if◌then◌else◌, inl, inr, length-set, ltb, none,
  refl, set, some, some_inj, sym, true, ℕ, ◌&&◌, ◌<◌, ◌>>=◌, ◌∙◌, ◌≡◌, ◌≢◌, ◌≤◌, ◌⊎◌, subst,
  ℕ_discrete,
}
use tpe2026c1_socks.Selector.{
  Item, Selector, SelectorStatus, interest_valid, is_used, items_max_size, new_item, put,
  register_at, selector_fdinuse, selector_iargs, selector_success, update_sets,
}
use tpe2026c1_socks.Stm.Handlers.{here}

-- The selector with the item of `n` replaced, its bits in the two sets and the largest descriptor.
abbrev pub replaced : {D : Type 0} → Selector D → ℕ → Item D → ℕ → Bool → Bool → Selector D
replaced s n it m r w = record s {
  fds = set s.fds n it;
  max_fd = m;
  master_r = put n r s.master_r;
  master_w = put n w s.master_w;
}

used_wants :
    {D : Type 0} (op : Interest → Bool) (m n : ℕ) (it : Item D)
    → Stands m n it
    → (is_used it && op it.interest) ≡ wants op (entry (some it))
used_wants op m n it (inl e) = rw e refl
used_wants op m n it (inr (e, low, (d, a))) = rw (e, a) refl

module _ {D : Type 0} (s : Selector D) (v : IsValid s) (n : ℕ) (inside : n < s.fd_size) where
  pub replaced-IsValid :
      (it : Item D) (m : ℕ) (r w : Bool)
      → m < s.fd_size
      → Stands m n it
      → ((k : ℕ) (it' : Item D) → get_elem? s.fds k ≡ some it' → k ≢ n → Stands m k it')
      → r ≡ wants (λ i. i.op_read) (entry (some it))
      → w ≡ wants (λ i. i.op_write) (entry (some it))
      → IsValid (replaced s n it m r w)
  replaced-IsValid it m r w h new old er ew = record {
    sized = length-set s.fds n it ∙ v.sized;
    bounded = v.bounded;
    below = h;
    stands = λ k it' e. stands_at k it' e (ℕ_discrete k n);
    reads =
        put-wants (λ i. i.op_read) s.master_r (registered s.fds) (registered (set s.fds n it)) n
          (entry (some it)) r v.reads (registered-set s.fds n it (omega (arith, v.sized))) er;
    writes =
        put-wants (λ i. i.op_write) s.master_w (registered s.fds) (registered (set s.fds n it)) n
          (entry (some it)) w v.writes (registered-set s.fds n it (omega (arith, v.sized))) ew;
  }
    where
      stands_at :
          (k : ℕ) (it' : Item D)
          → get_elem? (set s.fds n it) k ≡ some it'
          → Dec (k ≡ n)
          → Stands m k it'
      stands_at k it' e (yes q) =
          let f : it ≡ it' = some_inj (
            sym (get_elem?-set_same s.fds n it (omega (arith, v.sized)))
            ∙ ap (get_elem? (set s.fds n it)) (sym q)
            ∙ e) in
          subst (Stands m k) f (subst (λ j. Stands m j it) (sym q) new)
      stands_at k it' e (no ne) = old k it' (sym (get_elem?-set_other s.fds n k it ne) ∙ e) ne

  pub found : (it : Item D) × (get_elem? s.fds n ≡ some it)
  found = get_elem?_in s.fds n (omega (arith, v.sized))

  -- What an operation leaves: a sound table with the map `f`.
  abbrev pub Becomes : Selector D → (ℕ → Option (Interest × D)) → Type 0
  Becomes s' f = IsValid s' × ((k : ℕ) → registered s'.fds k ≡ f k)

  max-le : (k : ℕ) → s.max_fd ≤ (if ltb s.max_fd k then k else s.max_fd)
  max-le k = ground arith

  -- `selector_register` in the table: a descriptor in use is refused.
  pub register_at_lem :
      (d : D) (i : Interest)
      → n ≤ items_max_size
      → (st : SelectorStatus) × (s' : Selector D) × (register_at s n d i ≡ some (st, s'))
        × (((registered s.fds n ≡ none)
              × (st ≡ selector_success)
              × Becomes s' (updated n (some (i, d)) (registered s.fds)))
            ⊎ ((registered s.fds n ≢ none) × (st ≡ selector_fdinuse) × (s' ≡ s)))
  unfolding register_at update_sets
  register_at_lem d i h = by_item found.0 found.1 (v.stands n found.0 found.1)
    where
      top : ℕ
      top = if ltb s.max_fd n then n else s.max_fd

      by_item :
          (it : Item D)
          → get_elem? s.fds n ≡ some it
          → Stands s.max_fd n it
          → (st : SelectorStatus) × (s' : Selector D) × (register_at s n d i ≡ some (st, s'))
            × (((registered s.fds n ≡ none)
                  × (st ≡ selector_success)
                  × Becomes s' (updated n (some (i, d)) (registered s.fds)))
                ⊎ ((registered s.fds n ≢ none) × (st ≡ selector_fdinuse) × (s' ≡ s)))
      by_item it e (inl free) = (
        selector_success,
        replaced s n (new_item n d i) top i.op_read i.op_write,
        rw (e, ◌>>=◌, is_used-none it free) refl,
        inl (
          ap entry e ∙ unused_none it free,
          refl,
          (
            replaced-IsValid (new_item n d i) top i.op_read i.op_write (ground (arith, v.below))
                (inr (refl, ground arith, (d, refl)))
                (λ k it' f ne. Stands-le s.max_fd top k it' (max-le n) (v.stands k it' f)) refl
                refl,
            registered-set s.fds n (new_item n d i) (omega (arith, v.sized)),
          ),
        ),
      )
      by_item it e (inr (here, low, (d', a))) = (
        selector_fdinuse,
        s,
        rw (e, ◌>>=◌, is_used-some it here) refl,
        inr (rw (e, here, a) (λ q. absurd (cc)), refl, refl),
      )

  -- `selector_set_interest` in the table: only the interest changes.
  pub interest_valid_lem :
      (i : Interest)
      → (st : SelectorStatus) × (s' : Selector D) × (interest_valid s n i ≡ some (st, s'))
        × (((registered s.fds n ≡ none) × (st ≡ selector_iargs) × (s' ≡ s))
            ⊎ ((j : Interest) × (d : D) × (registered s.fds n ≡ some (j, d))
                × (st ≡ selector_success)
                × Becomes s' (updated n (some (i, d)) (registered s.fds))))
  unfolding interest_valid update_sets
  interest_valid_lem i = by_item found.0 found.1 (v.stands n found.0 found.1)
    where
      by_item :
          (it : Item D)
          → get_elem? s.fds n ≡ some it
          → Stands s.max_fd n it
          → (st : SelectorStatus) × (s' : Selector D) × (interest_valid s n i ≡ some (st, s'))
            × (((registered s.fds n ≡ none) × (st ≡ selector_iargs) × (s' ≡ s))
                ⊎ ((j : Interest) × (d : D) × (registered s.fds n ≡ some (j, d))
                    × (st ≡ selector_success)
                    × Becomes s' (updated n (some (i, d)) (registered s.fds))))
      by_item it e (inl free) = (
        selector_iargs,
        s,
        rw (e, ◌>>=◌, is_used-none it free) refl,
        inl (ap entry e ∙ unused_none it free, refl, refl),
      )
      by_item it e (inr (here, low, (d, a))) =
          let it' : Item D = record it { interest = i } in
          let u : is_used it ≡ true = is_used-some it here in
          let q : entry (some it') ≡ some (i, d) = rw (here, a) refl in
          (
            selector_success,
            replaced s n it' s.max_fd (is_used it && i.op_read) (is_used it && i.op_write),
            rw (e, ◌>>=◌) (rw u refl),
            inr (
              it.interest,
              d,
              ap entry e ∙ rw (here, a) refl,
              refl,
              (
                replaced-IsValid it' s.max_fd (is_used it && i.op_read) (is_used it && i.op_write)
                    v.below (inr (here, low, (d, a))) (λ k it2 f ne. v.stands k it2 f)
                    (used_wants (λ j. j.op_read) s.max_fd n it' (inr (here, low, (d, a))))
                    (used_wants (λ j. j.op_write) s.max_fd n it' (inr (here, low, (d, a)))),
                λ k.
                    registered-set s.fds n it' (omega (arith, v.sized)) k
                    ∙ ap (λ z. updated n z (registered s.fds) k) q,
              ),
            ),
          )
