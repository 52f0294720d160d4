-- ===== src/Selector/Rounds/Tests.antt =====
-- A round of src/selector.c on a concrete table, with callbacks that register a descriptor, change
-- an interest and unregister again, and that keep a list of their calls.
use tpe2026c1_socks.Net.{only_read, op_noop}
use tpe2026c1_socks.Prelude.{
  List, [], ap, arith, false, get_elem?, inl, inr, length, length-replicate, pos, refl, replicate,
  some, some_inj, suc, sym, true, zero, ℕ, ◌+◌, ◌≡◌, ◌∷◌, none,
}
use tpe2026c1_socks.Selector.{Item, Selector, grow, new_item, unused}
use tpe2026c1_socks.Selector.Grow.{unused_item}
use tpe2026c1_socks.Selector.New.{fresh-IsValid, zeroed}
use tpe2026c1_socks.Selector.Register.{replaced, replaced-IsValid}
use tpe2026c1_socks.Selector.Rounds.{Member, Ready, handle_iteration, select_ready, selector_select}
use tpe2026c1_socks.Selector.Rounds.Frames.{Quiet-set}
use tpe2026c1_socks.Selector.Rounds.Full.{full_size, selector_select-Serves}
use tpe2026c1_socks.Selector.Rounds.Order.{handle_iteration-serve_all, serve_all}
use tpe2026c1_socks.Selector.Rounds.Programs.{
  Anything, Program, asks, ends, registers, running, sets_interest, unregisters,
}
use tpe2026c1_socks.Selector.Rounds.Select.{Serves}
use tpe2026c1_socks.Selector.Rounds.Sound.{Quiet}
use tpe2026c1_socks.Selector.Table.{IsValid}

-- The table that the server starts with.
abbrev fresh : Selector ℕ
fresh = grow zeroed full_size

unused_quiet :
    (n k : ℕ) (it : Item ℕ)
    → get_elem? (replicate n unused) k ≡ some it
    → it.interest.op_write ≡ false
unused_quiet zero k it e = absurd (cc)
unused_quiet (suc n) zero it e = sym (ap (λ t. t.interest.op_write) (some_inj e))
unused_quiet (suc n) (suc k) it e = unused_quiet n k it e

fresh-Quiet : Quiet fresh
unfolding grow
fresh-Quiet k it e free = unused_quiet full_size k it e

fresh-unused : (k : ℕ) (it : Item ℕ) → get_elem? fresh.fds k ≡ some it → it.fd ≡ none
unfolding grow
fresh-unused k it e = unused_item full_size k e

fresh_size : (fresh.fd_size ≡ full_size) × (length fresh.fds ≡ full_size)
unfolding grow
fresh_size = (refl, length-replicate {A = Item ℕ} full_size unused)

-- Descriptor 3 is registered, and a job for it waits.
abbrev registered_three : Selector ℕ
registered_three = replaced fresh 3 (new_item 3 9 only_read) 3 true false

registered_three-IsValid : IsValid registered_three
registered_three-IsValid =
    replaced-IsValid fresh (fresh-IsValid full_size (omega arith) (omega arith)) 3
      (omega (arith, fresh_size.0)) (new_item 3 9 only_read) 3 true false
      (omega (arith, fresh_size.0)) (inr (refl, omega arith, (9, refl)))
      (λ k it e ne. inl (fresh-unused k it e)) refl refl

abbrev with_job : Selector ℕ
with_job = record registered_three { resolution_jobs = 3 ∷ [] }

with_job-IsValid : IsValid with_job
with_job-IsValid = record {
  sized = registered_three-IsValid.sized;
  bounded = registered_three-IsValid.bounded;
  below = registered_three-IsValid.below;
  stands = registered_three-IsValid.stands;
  reads = registered_three-IsValid.reads;
  writes = registered_three-IsValid.writes;
}

with_job-Quiet : Quiet with_job
with_job-Quiet =
    Quiet-set fresh with_job 3 (new_item 3 9 only_read) (omega (arith, fresh_size.1)) refl
      (λ free. refl) fresh-Quiet

-- Each call connects to another descriptor, stops reading for a while and gives both up again.
abbrev programs : Member → ℕ → ℕ → ℕ → List ℕ → Program ℕ (List ℕ)
programs ev h fd d calls = asks (registers (pos 7) (some 2) only_read) (λ st c.
    asks (sets_interest (pos fd) op_noop)
      (λ st' c'. asks (unregisters (pos 7)) (λ st2 c2. ends (fd ∷ calls))))

abbrev all_ready : Ready
all_ready = record { slave_r = λ n. true; slave_w = λ n. true }

selector_select-Serves_example :
    Serves Anything with_job []
      (selector_select (running true programs) (select_ready all_ready) (with_job, []))
selector_select-Serves_example =
    selector_select-Serves true programs with_job [] (select_ready all_ready) with_job-IsValid
      with_job-Quiet fresh_size.0 (omega arith, tt)

handle_iteration-serve_all_example :
    (s' : Selector ℕ) × (w' : List ℕ) × (handle_iteration
        (running true programs)
        all_ready
        (with_job, [])
      ≡ some (s', w'))
    × (serve_all (running true programs) all_ready (with_job.max_fd + 1) 0 (with_job, [])
        ≡ some (s', w'))
    × IsValid s'
handle_iteration-serve_all_example =
    handle_iteration-serve_all true programs all_ready with_job [] with_job-IsValid with_job-Quiet
      fresh_size.0
