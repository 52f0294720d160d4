-- ===== src/Selector/Rounds/Frames.antt =====
-- What the operations of src/selector.c leave as it is.
use mathlib.Core.Bool.{false≢true}
use tpe2026c1_socks.Net.{Interest, op_noop}
use tpe2026c1_socks.Prelude.{
  Bool-cases, Option, Option-cases, ap, false, get_elem?, get_elem?_in, if◌then◌else◌, inl, inr,
  length, ltb, none, refl, set, some, some_inj, subst, sym, ℕ, ◌<◌, ◌>>=◌, ◌∙◌, ◌≡◌, ℕ_discrete,
}
use tpe2026c1_socks.Selector.{
  Item, Selector, SelectorStatus, interest_valid, is_used, items_max_fd, new_item, register_at,
  selector_fdinuse, selector_iargs, selector_success, unregister_valid, unused, update_sets,
}
use tpe2026c1_socks.Selector.Rounds.Sound.{Quiet}
use tpe2026c1_socks.Selector.Table.{get_elem?-set_other, get_elem?-set_same, is_used-none}

-- What an operation leaves as it is: the size, the jobs, and that unused items are quiet.
abbrev pub Frame : {D : Type 0} → Selector D → Selector D → Type 0
Frame s s' =
    (s'.fd_size ≡ s.fd_size) × (s'.resolution_jobs ≡ s.resolution_jobs) × (Quiet s → Quiet s')

module _ {D : Type 0} where
  pub Quiet-set :
      (s s' : Selector D) (n : ℕ) (it : Item D)
      → n < length s.fds
      → s'.fds ≡ set s.fds n it
      → (it.fd ≡ none → it.interest.op_write ≡ false)
      → Quiet s
      → Quiet s'
  Quiet-set s s' n it low e h q k it' f free = elim (ℕ_discrete k n) [
    | yes same ↦
        let g : it ≡ it' = some_inj (
          sym (get_elem?-set_same s.fds n it low)
          ∙ ap (get_elem? (set s.fds n it)) (sym same)
          ∙ sym (ap (λ fds. get_elem? fds k) e)
          ∙ f) in
        sym (ap (λ t. t.interest.op_write) g) ∙ h (ap (λ t. t.fd) g ∙ free)
    | no other ↦
        q k it'
          (sym (get_elem?-set_other s.fds n k it other) ∙ sym (ap (λ fds. get_elem? fds k) e) ∙ f)
          free
  ]

  Frame-refl : (s : Selector D) → Frame s s
  Frame-refl s = (refl, refl, λ q. q)

  pub register_at-Frame :
      (s s' : Selector D) (n : ℕ) (d : D) (i : Interest) (st : SelectorStatus)
      → n < length s.fds
      → register_at s n d i ≡ some (st, s')
      → Frame s s'
  unfolding register_at update_sets
  register_at-Frame s s' n d i st low r =
      let (it, e) = get_elem?_in s.fds n low in
      elim (Bool-cases (is_used it)) [
        | inl u ↦
            let p : register_at s n d i ≡ some (selector_fdinuse, s) = rw (e, ◌>>=◌, u) refl in
            subst (Frame s) (ap (λ t. t.1) (some_inj (sym p ∙ r))) (Frame-refl s)
        | inr u ↦
            let new : Selector D =
              update_sets
                (record s {
                  fds = set s.fds n (new_item n d i);
                  max_fd = if ltb s.max_fd n then n else s.max_fd;
                })
                n (new_item n d i) in
            let p : register_at s n d i ≡ some (selector_success, new) = rw (e, ◌>>=◌, u) refl in
            subst (Frame s) (ap (λ t. t.1) (some_inj (sym p ∙ r)))
              (refl, refl, Quiet-set s new n (new_item n d i) low refl (λ z. absurd (cc)))
      ]

  pub interest_valid-Frame :
      (s s' : Selector D) (n : ℕ) (i : Interest) (st : SelectorStatus)
      → n < length s.fds
      → interest_valid s n i ≡ some (st, s')
      → Frame s s'
  unfolding interest_valid update_sets
  interest_valid-Frame s s' n i st low r =
      let (it, e) = get_elem?_in s.fds n low in
      let it' : Item D = record it { interest = i } in
      elim (Bool-cases (is_used it)) [
        | inr u ↦
            let p : interest_valid s n i ≡ some (selector_iargs, s) = rw (e, ◌>>=◌, u) refl in
            subst (Frame s) (ap (λ t. t.1) (some_inj (sym p ∙ r))) (Frame-refl s)
        | inl u ↦
            let new : Selector D = update_sets (record s { fds = set s.fds n it' }) n it' in
            let p : interest_valid s n i ≡ some (selector_success, new) =
              rw (e, ◌>>=◌) (rw u refl) in
            subst (Frame s) (ap (λ t. t.1) (some_inj (sym p ∙ r))) (
              refl,
              refl,
              Quiet-set s new n it' low refl
                  (λ free. absurd (false≢true (sym (is_used-none it free) ∙ u))),
            )
      ]

  pub unregister_valid-Frame :
      (s s' : Selector D) (n : ℕ) (st : SelectorStatus) (c : Option D)
      → n < length s.fds
      → unregister_valid s n ≡ some (st, s', c)
      → Frame s s'
  unfolding unregister_valid update_sets
  unregister_valid-Frame s s' n st c low r =
      let (it, e) = get_elem?_in s.fds n low in
      let s1 : Selector D = update_sets s n (record it { interest = op_noop }) in
      let s2 : Selector D = record s1 { fds = set s1.fds n unused } in
      elim (Bool-cases (is_used it)) [
        | inr u ↦
            let p : unregister_valid s n ≡ some (selector_iargs, s, none) = rw (e, ◌>>=◌, u) refl in
            subst (Frame s) (ap (λ t. t.1) (some_inj (sym p ∙ r))) (Frame-refl s)
        | inl u ↦ elim (Option-cases (items_max_fd s2)) [
          | inl z ↦
              let p : unregister_valid s n ≡ none = rw (e, ◌>>=◌, z) (rw u refl) in absurd (cc)
          | inr (m, z) ↦
              let new : Selector D = record s2 { max_fd = m } in
              let p : unregister_valid s n ≡ some (selector_success, new, it.attached) =
                rw (e, ◌>>=◌, z) (rw u refl) in
              subst (Frame s) (ap (λ t. t.1) (some_inj (sym p ∙ r)))
                (refl, refl, Quiet-set s new n unused low refl (λ free. refl))
        ]
      ]
