-- ===== src/Selector/Tests.antt =====
-- src/selector.c on concrete tables: a new one, a registration that makes the table grow, and an
-- unregistration.
use tpe2026c1_socks.Net.{only_read}
use tpe2026c1_socks.Prelude.{
  arith, false, inl, inr, pos, refl, replicate, some, sym, true, ℕ, ◌≡◌, [], ap,
}
use tpe2026c1_socks.Selector.{
  Selector, count_bits, new_item, next_capacity, selector_register, unregister_valid, unused,
}
use tpe2026c1_socks.Selector.New.{Starts, selector_new, selector_new_lem}
use tpe2026c1_socks.Selector.Grow.{Registers, selector_register_lem, unused_item, unused_nowhere}
use tpe2026c1_socks.Selector.Register.{replaced, replaced-IsValid}
use tpe2026c1_socks.Selector.Table.{IsValid, wants}
use tpe2026c1_socks.Selector.Unregister.{Unregisters, unregister_valid_lem}

-- A table of five items, all unused.
abbrev five : Selector ℕ
five = record {
  fds = replicate 5 unused;
  fd_size = 5;
  max_fd = 0;
  master_r = λ n. false;
  master_w = λ n. false;
  resolution_jobs = [];
}

five-IsValid : IsValid five
five-IsValid = record {
  sized = refl;
  bounded = omega arith;
  below = omega arith;
  stands = λ k it e. inl (unused_item 5 k e);
  reads = λ k. ap (wants (λ i. i.op_read)) (sym (unused_nowhere 5 k));
  writes = λ k. ap (wants (λ i. i.op_write)) (sym (unused_nowhere 5 k));
}

-- The table with descriptor 3 registered.
abbrev pub one_used : Selector ℕ
one_used = replaced five 3 (new_item 3 9 only_read) 3 true false

pub one_used-IsValid : IsValid one_used
one_used-IsValid =
    replaced-IsValid five five-IsValid 3 (omega arith) (new_item 3 9 only_read) 3 true false
      (omega arith) (inr (refl, omega arith, (9, refl))) (λ k it e ne. inl (unused_item 5 k e)) refl
      refl

selector_new_lem_example : Starts {D = ℕ} true 1000 (selector_new true true 1000)
selector_new_lem_example = selector_new_lem true true 1000 (omega arith)

selector_register_lem_example :
    Registers five 7 2 only_read (selector_register true five (pos 7) (some 2) only_read)
selector_register_lem_example =
    selector_register_lem true five 7 2 only_read five-IsValid (omega arith) (omega arith)

unregister_valid_lem_example :
    Unregisters one_used one_used-IsValid 3 (omega arith) (unregister_valid one_used 3)
unregister_valid_lem_example = unregister_valid_lem one_used one_used-IsValid 3 (omega arith)

-- Nine needs four bits.
room : next_capacity 9 ≡ some 17
unfolding next_capacity count_bits
room = refl
