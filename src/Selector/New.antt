-- ===== src/Selector/New.antt =====
-- `selector_new` of src/selector.c, and the table that it starts with.
use tpe2026c1_socks.Prelude.{
  Bool, Option, [], arith, false, none, refl, some, true, ℕ, ap, inl, length-replicate, ltb, sym,
  ◌+◌, ◌-◌, ◌<◌, ◌>>=◌, ◌∙◌, ◌≡◌, ◌≤◌, inr, ◌&&◌, ◌⊎◌,
}
use tpe2026c1_socks.Selector.{
  Selector, ensure_capacity, grow, items_max_size, selector_success, unused, Item, SelectorStatus,
  next_capacity,
}
use tpe2026c1_socks.Selector.Capacity.{next_capacity_lem}
use tpe2026c1_socks.Selector.Grow.{unused_item, unused_nowhere}
use tpe2026c1_socks.Selector.Table.{IsValid, registered, wants}

-- The selector after `memset`.
abbrev pub zeroed : {D : Type 0} → Selector D
zeroed = record {
  fds = [];
  fd_size = 0;
  max_fd = 0;
  master_r = λ n. false;
  master_w = λ n. false;
  resolution_jobs = [];
}

-- What `ensure_capacity` left: `selector_destroy` frees the selector where that failed.
abbrev pub new_from : {D : Type 0} → SelectorStatus × Selector D → Option (Selector D)
new_from (selector_success, s) = some s
new_from (e, s) = none

-- `mallocs` and `callocs` say whether the two allocations succeed.
unfoldable pub selector_new : {D : Type 0} → Bool → Bool → ℕ → Option (Option (Selector D))
selector_new false callocs n = some none
selector_new true callocs n = do r ← ensure_capacity callocs zeroed n; some (new_from r)

pub fresh-IsValid :
    {D : Type 0} (size : ℕ)
    → 0 < size
    → size ≤ items_max_size + 1
    → IsValid (grow {D = D} zeroed size)
unfolding grow
fresh-IsValid {D} size h b = record {
  sized = length-replicate {A = Item D} (size - 0) unused ∙ omega arith;
  bounded = b;
  below = h;
  stands = λ k it e. inl (unused_item (size - 0) k e);
  reads = λ k. ap (wants (λ i. i.op_read)) (sym (unused_nowhere (size - 0) k));
  writes = λ k. ap (wants (λ i. i.op_write)) (sym (unused_nowhere (size - 0) k));
}

-- What starting leaves, where `b` says whether both allocations succeed.
abbrev pub Starts : {D : Type 0} → Bool → ℕ → Option (Option (Selector D)) → Type 0
Starts {D} b n r =
    ((b ≡ false) × (r ≡ some none))
    ⊎ ((s : Selector D) × (r ≡ some (some s))
        × (b ≡ true)
        × IsValid s
        × (n < s.fd_size)
        × (s.resolution_jobs ≡ [])
        × ((k : ℕ) → registered s.fds k ≡ none))

-- `selector_new` for up to FD_SETSIZE descriptors does not abort, and its table's growth ends. Where
-- an allocation fails there is no selector; where both succeed its table is sound, has room for the
-- descriptor `n`, nothing is registered in it and no job waits.
pub selector_new_lem :
    {D : Type 0} (mallocs callocs : Bool) (n : ℕ)
    → n ≤ items_max_size
    → Starts {D = D} (mallocs && callocs) n (selector_new mallocs callocs n)
unfolding selector_new ensure_capacity grow
selector_new_lem {D} mallocs callocs n h =
    let (size, e, low, high) = next_capacity_lem n h in
    let t : ltb n 0 ≡ false = ground arith in
    let u : ltb items_max_size n ≡ false = ground arith in
    by_allocations size low high mallocs callocs t u e
  where
    by_allocations :
        (size : ℕ)
        → n < size
        → size ≤ items_max_size + 1
        → (a b : Bool) → ltb n 0 ≡ false
        → ltb items_max_size n ≡ false
        → next_capacity n ≡ some size
        → Starts {D = D} (a && b) n (selector_new a b n)
    by_allocations size low high false b t u e = inl (refl, refl)
    by_allocations size low high true false t u e = inl (refl, rw (t, u, e, ◌>>=◌) refl)
    by_allocations size low high true true t u e = inr (
      grow zeroed size,
      rw (t, u, e, ◌>>=◌) refl,
      refl,
      fresh-IsValid size (omega (arith, low)) high,
      low,
      refl,
      λ k. unused_nowhere (size - 0) k,
    )
