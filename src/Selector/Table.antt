-- ===== src/Selector/Table.antt =====
-- The table of src/selector.c as a map from descriptors to interests and handlers.
use tpe2026c1_socks.Net.{Interest}
use tpe2026c1_socks.Prelude.{
  ==_iff, Bool, Bool-cases, List, Option, [], arith, false, get_elem?, if◌then◌else◌, inl, inr,
  length, none, refl, set, some, suc, true, zero, ℕ, ◌+◌, ◌<◌, ◌==◌, ◌∙◌, ◌∷◌, ◌≡◌, ◌≢◌, ◌≤◌, ◌⊎◌,
  ℕ_discrete,
}
use tpe2026c1_socks.Selector.{Item, Selector, is_used, items_max_size, put}

-- What an item says: its interest and its handler, if it is used.
abbrev pub entry_of : {D : Type 0} → Option ℕ → Interest → Option D → Option (Interest × D)
entry_of (some n) i (some d) = some (i, d)
entry_of _ i a = none

abbrev pub entry : {D : Type 0} → Option (Item D) → Option (Interest × D)
entry none = none
entry (some it) = entry_of it.fd it.interest it.attached

-- The descriptors that are registered.
abbrev pub registered : {D : Type 0} → List (Item D) → ℕ → Option (Interest × D)
registered fds n = entry (get_elem? fds n)

abbrev pub wants : {D : Type 0} → (Interest → Bool) → Option (Interest × D) → Bool
wants op none = false
wants op (some (i, d)) = op i

-- An item is unused, or stands at its own descriptor, which is not above `max`, with a handler.
abbrev pub Stands : {D : Type 0} → ℕ → ℕ → Item D → Type 0
Stands {D} max n it =
    (it.fd ≡ none) ⊎ ((it.fd ≡ some n) × (n ≤ max) × ((d : D) × (it.attached ≡ some d)))

pub record IsValid {D : Type 0} (s : Selector D) : Type 0 where
  pub sized : length s.fds ≡ s.fd_size
  pub bounded : s.fd_size ≤ items_max_size + 1
  pub below : s.max_fd < s.fd_size
  pub stands : (n : ℕ) (it : Item D) → get_elem? s.fds n ≡ some it → Stands s.max_fd n it
  pub reads : (n : ℕ) → s.master_r n ≡ wants (λ i. i.op_read) (registered s.fds n)
  pub writes : (n : ℕ) → s.master_w n ≡ wants (λ i. i.op_write) (registered s.fds n)

-- The map `f` with another value at `n`.
abbrev pub updated : {A : Type 0} → ℕ → A → (ℕ → A) → ℕ → A
updated n a f k = if k == n then a else f k

module _ {A : Type 0} where
  pub get_elem?-set_same :
      (xs : List A) (n : ℕ) (a : A) → n < length xs → get_elem? (set xs n a) n ≡ some a
  get_elem?-set_same [] n a h = absurd (omega arith)
  get_elem?-set_same (x ∷ xs) zero a h = refl
  get_elem?-set_same (x ∷ xs) (suc n) a h = get_elem?-set_same xs n a (omega arith)

  pub get_elem?-set_other :
      (xs : List A) (n k : ℕ) (a : A) → k ≢ n → get_elem? (set xs n a) k ≡ get_elem? xs k
  get_elem?-set_other [] n k a h = refl
  get_elem?-set_other (x ∷ xs) zero zero a h = absurd (h refl)
  get_elem?-set_other (x ∷ xs) zero (suc k) a h = refl
  get_elem?-set_other (x ∷ xs) (suc n) zero a h = refl
  get_elem?-set_other (x ∷ xs) (suc n) (suc k) a h = get_elem?-set_other xs n k a (omega arith)

module _ {D : Type 0} where
  -- A table with one item replaced.
  pub registered-set :
      (fds : List (Item D)) (n : ℕ) (it : Item D)
      → n < length fds
      → (k : ℕ) → registered (set fds n it) k ≡ updated n (entry (some it)) (registered fds) k
  registered-set fds n it h k = elim (ℕ_discrete k n) [
    | yes e ↦
        let t : (k == n) ≡ true = (==_iff k n).1 e in rw (t, e, get_elem?-set_same fds n it h) refl
    | no ne ↦
        let t : (k == n) ≡ false = ground arith in rw (t, get_elem?-set_other fds n k it ne) refl
  ]

  pub unused_none : (it : Item D) → it.fd ≡ none → entry (some it) ≡ none
  unused_none it e = rw e refl

  pub is_used-none : (it : Item D) → it.fd ≡ none → is_used it ≡ false
  is_used-none it e = rw e refl

  pub is_used-some : (it : Item D) {n : ℕ} → it.fd ≡ some n → is_used it ≡ true
  is_used-some it e = rw e refl

  -- The bits of a set after `put`, where the item of the descriptor changed too.
  pub put-wants :
      (op : Interest → Bool) (set_of : ℕ → Bool) (f g : ℕ → Option (Interest × D)) (n : ℕ)
      (e : Option (Interest × D)) (b : Bool)
      → ((k : ℕ) → set_of k ≡ wants op (f k))
      → ((k : ℕ) → g k ≡ updated n e f k)
      → b ≡ wants op e
      → (k : ℕ) → put n b set_of k ≡ wants op (g k)
  put-wants op set_of f g n e b h q r k = elim (Bool-cases (k == n)) [
    | inl t ↦ let m : g k ≡ e = q k ∙ rw t refl in rw (t, m) r
    | inr t ↦ let m : g k ≡ f k = q k ∙ rw t refl in rw (t, m) (h k)
  ]

  -- The items keep their places when the largest descriptor grows.
  pub Stands-le : (m m' n : ℕ) (it : Item D) → m ≤ m' → Stands m n it → Stands m' n it
  Stands-le m m' n it h (inl e) = inl e
  Stands-le m m' n it h (inr (e, low, a)) = inr (e, omega (arith, low), a)
