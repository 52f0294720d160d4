-- ===== src/Selector/Unregister.antt =====
-- `selector_unregister_fd` of src/selector.c on a sound table.
use tpe2026c1_socks.Selector.Table.{
  IsValid, Stands, entry, get_elem?-set_other, get_elem?-set_same, is_used-none, is_used-some,
  registered, registered-set, unused_none, updated,
}
use tpe2026c1_socks.Net.{Interest}
use tpe2026c1_socks.Prelude.{
  Bool, List, Option, Option-cases, [], ap, arith, false, get_elem?, inl, inr, length, length-set,
  ltb, lt→ltb, none, refl, set, some, some_inj, suc, sym, take, true, zero, ℕ, ◌&&◌, ◌+◌, ◌<◌,
  ◌>>=◌, ◌∙◌, ◌∷◌, ◌≡◌, ◌≢◌, ◌≤◌, ◌⊎◌, ℕ_discrete,
}
use tpe2026c1_socks.Selector.{
  Item, Selector, SelectorStatus, is_used, items_max_fd, max_of, selector_iargs, selector_success,
  unregister_valid, unused, update_sets, max,
}
use tpe2026c1_socks.Selector.Register.{Becomes, replaced, replaced-IsValid, found}
use tpe2026c1_socks.Stm.Handlers.{here}

and_false : (b : Bool) → (b && false) ≡ false
and_false true = refl
and_false false = refl

get_elem?-take :
    {A : Type 0} (n : ℕ) (xs : List A) (i : ℕ) → i < n → get_elem? (take n xs) i ≡ get_elem? xs i
get_elem?-take zero xs i h = absurd (omega (arith, h))
get_elem?-take (suc n) [] i h = refl
get_elem?-take (suc n) (x ∷ xs) zero h = refl
get_elem?-take (suc n) (x ∷ xs) (suc i) h = get_elem?-take n xs i (omega arith)

get_elem?_taken :
    {A : Type 0} (n : ℕ) (xs : List A) (i : ℕ) {x : A}
    → get_elem? (take n xs) i ≡ some x
    → get_elem? xs i ≡ some x
get_elem?_taken zero xs i e = absurd (cc)
get_elem?_taken (suc n) [] i e = absurd (cc)
get_elem?_taken (suc n) (x ∷ xs) zero e = e
get_elem?_taken (suc n) (x ∷ xs) (suc i) e = get_elem?_taken n xs i e

module _ {D : Type 0} where
  max_of-le : (its : List (Item D)) (m : ℕ) → m ≤ max_of m its
  unfolding max_of
  max_of-le [] m = omega arith
  max_of-le (it ∷ its) m = elim (Option-cases it.fd) [
    | inl e ↦ rw (max_of, e) (max_of-le its m)
    | inr (k, e) ↦ rw (max_of, e) (omega (arith, max_of-le its (max m k)))
  ]

  -- No used item is above the maximum.
  used-le :
      (its : List (Item D)) (m i k : ℕ) {it : Item D}
      → get_elem? its i ≡ some it
      → it.fd ≡ some k
      → k ≤ max_of m its
  unfolding max_of
  used-le [] m i k e f = absurd (cc)
  used-le (jt ∷ its) m zero k {it} e f =
      let g : jt.fd ≡ some k = ap (λ t. t.fd) (some_inj e) ∙ f in
      rw (max_of, g) (omega (arith, max_of-le its (max m k)))
  used-le (jt ∷ its) m (suc i) k e f = elim (Option-cases jt.fd) [
    | inl g ↦ rw (max_of, g) (used-le its m i k e f)
    | inr (j, g) ↦ rw (max_of, g) (used-le its (max m j) i k e f)
  ]

  -- The maximum is one of the used items, or the start.
  max_of-lt :
      (its : List (Item D)) (m top : ℕ)
      → m < top
      → ((i k : ℕ) (it : Item D) → get_elem? its i ≡ some it → it.fd ≡ some k → k < top)
      → max_of m its < top
  unfolding max_of
  max_of-lt [] m top h u = h
  max_of-lt (it ∷ its) m top h u = elim (Option-cases it.fd) [
    | inl e ↦ rw (max_of, e) (max_of-lt its m top h (λ i k jt f g. u (suc i) k jt f g))
    | inr (k, e) ↦
        let low : k < top = u 0 k it refl e in
        rw (max_of, e)
          (max_of-lt its (max m k) top (omega (arith, low)) (λ i j jt f g. u (suc i) j jt f g))
  ]

module _ {D : Type 0} (s : Selector D) (v : IsValid s) (n : ℕ) (inside : n < s.fd_size) where
  -- The items without the one of `n`, up to the largest descriptor.
  abbrev others : List (Item D)
  others = take (s.max_fd + 1) (set s.fds n unused)

  abbrev new_max : ℕ
  new_max = max_of 0 others

  other-Stands :
      (i : ℕ) (it : Item D) → get_elem? (set s.fds n unused) i ≡ some it → Stands s.max_fd i it
  other-Stands i it e = elim (ℕ_discrete i n) [
    | yes q ↦
        let f : unused ≡ it = some_inj (
          sym (get_elem?-set_same s.fds n unused (omega (arith, v.sized)))
          ∙ ap (get_elem? (set s.fds n unused)) (sym q)
          ∙ e) in
        inl (sym (ap (λ t. t.fd) f))
    | no ne ↦ v.stands i it (sym (get_elem?-set_other s.fds n i unused ne) ∙ e)
  ]

  fd_low : (i k : ℕ) (it : Item D) → Stands s.max_fd i it → it.fd ≡ some k → k < s.fd_size
  fd_low i k it (inl e) f = absurd (cc)
  fd_low i k it (inr (e, low, a)) f =
      let q : i ≡ k = some_inj (sym e ∙ f) in omega (arith, low, v.below)

  new_max-lt : new_max < s.fd_size
  new_max-lt =
      max_of-lt others 0 s.fd_size (omega (arith, v.below))
        (λ i k it e f. fd_low i k it (other-Stands i it (get_elem?_taken (s.max_fd + 1) _ i e)) f)

  still-Stands : (k : ℕ) (it : Item D) → get_elem? s.fds k ≡ some it → k ≢ n → Stands new_max k it
  still-Stands k it e ne = standing (v.stands k it e)
    where
      standing : Stands s.max_fd k it → Stands new_max k it
      standing (inl f) = inl f
      standing (inr (f, low, a)) =
          let there : get_elem? others k ≡ some it =
            get_elem?-take (s.max_fd + 1) (set s.fds n unused) k (omega (arith, low))
            ∙ get_elem?-set_other s.fds n k unused ne
            ∙ e in
          inr (f, used-le others 0 k k there f, a)

  -- What unregistering leaves: the status, the selector and what `handle_close` was called on.
  abbrev pub Unregisters : Option (SelectorStatus × Selector D × Option D) → Type 0
  Unregisters r =
      (st : SelectorStatus) × (s' : Selector D) × (c : Option D) × (r ≡ some (st, s', c))
      × (((registered s.fds n ≡ none) × (st ≡ selector_iargs) × (s' ≡ s) × (c ≡ none))
          ⊎ ((j : Interest) × (d : D) × (registered s.fds n ≡ some (j, d))
              × (st ≡ selector_success)
              × (c ≡ some d)
              × Becomes s v n inside s' (updated n none (registered s.fds))))

  -- The part of `selector_unregister_fd` behind its test of the arguments, on a descriptor inside a
  -- sound table, does not abort. One that is not
  -- registered is refused, and nothing changes. One that is registered has its handler's
  -- `handle_close` called, and is then gone from the map and from the two sets, while every other
  -- descriptor stays; the table stays sound, with no descriptor above the new maximum.
  pub unregister_valid_lem : Unregisters (unregister_valid s n)
  unfolding unregister_valid update_sets items_max_fd
  unregister_valid_lem =
      by_item (found s v n inside).0 (found s v n inside).1
        (v.stands n (found s v n inside).0 (found s v n inside).1)
    where
      by_item :
          (it : Item D)
          → get_elem? s.fds n ≡ some it
          → Stands s.max_fd n it
          → Unregisters (unregister_valid s n)
      by_item it e (inl free) = (
        selector_iargs,
        s,
        none,
        rw (e, ◌>>=◌, is_used-none it free) refl,
        inl (ap entry e ∙ unused_none it free, refl, refl, refl),
      )
      by_item it e (inr (here, low, (d, a))) =
          let u : is_used it ≡ true = is_used-some it here in
          let t : ltb s.max_fd (length (set s.fds n unused)) ≡ true =
            lt→ltb _ _ (omega (arith, length-set s.fds n unused, v.sized, v.below)) in
          (
            selector_success,
            replaced s n unused new_max (is_used it && false) (is_used it && false),
            it.attached,
            rw (e, ◌>>=◌, t) (rw u refl),
            inr (
              it.interest,
              d,
              ap entry e ∙ rw (here, a) refl,
              refl,
              a,
              (
                replaced-IsValid s v n inside unused new_max (is_used it && false)
                    (is_used it && false) new_max-lt (inl refl) still-Stands
                    (and_false (is_used it)) (and_false (is_used it)),
                registered-set s.fds n unused (omega (arith, v.sized)),
              ),
            ),
          )
