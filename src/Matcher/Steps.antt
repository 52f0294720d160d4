-- ===== src/Matcher/Steps.antt =====
-- One byte in the table of `parser_utils_strcmpi`.
use tpe2026c1_socks.Matcher.{
  Parser, Transition, act, char_state, compared, differs, first_match, matches, parser_feed,
  parser_no_classes, parser_utils_strcmpi, string_cmp_eq, string_cmp_mayeq, string_cmp_neq,
  states_from,
}
use tpe2026c1_socks.Matcher.Spec.{same_letter}
use tpe2026c1_socks.Prelude.{
  All, Bool-cases, Bytes, List, [], arith, get_elem?, if◌then◌else◌, inl, inr, leb, none, refl,
  replicate, some, suc, true, zero, ℕ, ◌+◌, ◌<◌, ◌==◌, ◌∷◌, ◌≡◌, ap, false, length, some_inj, ◌>>=◌,
  ◌∙◌, ◌⊎◌,
}
use tpe2026c1_socks.Prelude.Text.{tolower, toupper}

-- The characters that a transition can name as a byte.
abbrev pub Ascii : Bytes → Type 0
Ascii s = All (λ x. x < 128) s

-- The bytes whose class the array holds.
abbrev pub Fed : Bytes → Type 0
Fed t = All (λ c. c < 255) t

-- The byte `c` takes a state with the transitions `ts` to `dest` with an event of this type.
record Picks (ts : List Transition) (c dest type : ℕ) : Type 0 where
  pub chosen : Transition
  pub first : first_match ts 0 c ≡ some chosen
  pub alone : chosen.act2 ≡ none
  pub leads : chosen.dest ≡ dest
  pub tells : chosen.act1 ≡ compared type

lower_byte : (x : ℕ) → x < 128 → leb (tolower x) 0xFF ≡ true
lower_byte x h = ground arith

upper_byte : (x : ℕ) → x < 128 → leb (toupper x) 0xFF ≡ true
upper_byte x h = ground arith

unfoldable pub letter_type : ℕ → ℕ → ℕ
letter_type n i = if i + 1 == n then string_cmp_eq else string_cmp_mayeq

letter_dest : (n i : ℕ) → (if i + 1 == n then n else i + 1) ≡ i + 1
letter_dest n i = ground arith

char_state-Picks :
    (n i x c : ℕ)
    → x < 128
    → Picks
        (char_state n i x)
        c
        (if same_letter x c then i + 1 else n + 1)
        (if same_letter x c then letter_type n i else string_cmp_neq)
unfolding char_state first_match matches letter_type
char_state-Picks n i x c h = elim (Bool-cases (c == tolower x)) [
  | inl low ↦ record {
    chosen = record {
      when = tolower x;
      dest = if i + 1 == n then n else i + 1;
      act1 = compared (letter_type n i);
      act2 = none;
    };
    first = rw (lower_byte x h, low);
    alone = refl;
    leads = rw low (letter_dest n i);
    tells = rw low;
  }
  | inr not_low ↦ elim (Bool-cases (c == toupper x)) [
    | inl up ↦ record {
      chosen = record {
        when = toupper x;
        dest = if i + 1 == n then n else i + 1;
        act1 = compared (letter_type n i);
        act2 = none;
      };
      first = rw (lower_byte x h, not_low, upper_byte x h, up);
      alone = refl;
      leads = rw (not_low, up) (letter_dest n i);
      tells = rw (not_low, up);
    }
    | inr not_up ↦ record {
      chosen = differs (n + 1);
      first = rw (lower_byte x h, not_low, upper_byte x h, not_up);
      alone = refl;
      leads = rw (not_low, not_up);
      tells = rw (not_low, not_up);
    }
  ]
]

differs-Picks : (n c : ℕ) → Picks (differs (n + 1) ∷ []) c (n + 1) string_cmp_neq
unfolding first_match matches
differs-Picks n c = record {
  chosen = differs (n + 1);
  first = refl;
  alone = refl;
  leads = refl;
  tells = refl;
}

-- A parser of the table for `s`, in state `i`.
pub record In (p : Parser) (s : Bytes) (i : ℕ) : Type 0 where
  pub classes : p.classes ≡ parser_no_classes
  pub def : p.def ≡ parser_utils_strcmpi s
  pub state : p.state ≡ i

replicate_get : (n c : ℕ) → c < n → get_elem? {A = ℕ} (replicate n 0) c ≡ some 0
replicate_get zero c h = absurd (omega (arith, h))
replicate_get (suc n) zero h = refl
replicate_get (suc n) (suc c) h = replicate_get n c (omega arith)

pub class_found : (c : ℕ) → c < 255 → get_elem? parser_no_classes c ≡ some 0
unfolding parser_no_classes
class_found c h = replicate_get 255 c h

-- One byte, by the transitions of the state.
feed_Picks :
    (p : Parser) (s : Bytes) (i c : ℕ) (ts : List Transition) {dest type : ℕ}
    → In p s i
    → c < 255
    → get_elem? (parser_utils_strcmpi s).states i ≡ some ts
    → Picks ts c dest type
    → (q : Parser) × (parser_feed p c ≡ some q) × In q s dest × (q.e1.type ≡ type)
unfolding parser_feed act compared
feed_Picks p s i c ts h l e k =
    let cls : get_elem? p.classes c ≡ some 0 = rw (h.classes) (class_found c l) in
    let row : get_elem? p.def.states p.state ≡ some ts = rw (h.def, h.state) e in
    (
      record p {
        e1 = k.chosen.act1 (record (p.e1) { next = false }) c;
        e2 = record (p.e2) { next = false };
        state = k.chosen.dest;
      },
      rw (cls, ◌>>=◌, row, k.first, k.alone) refl,
      record { classes = h.classes; def = h.def; state = k.leads },
      rw k.tells refl,
    )

states_from_end :
    (n i : ℕ) (s : Bytes) (j : ℕ)
    → (j ≡ length s) ⊎ (j ≡ length s + 1)
    → get_elem? (states_from n i s) j ≡ some (differs (n + 1) ∷ [])
unfolding states_from
states_from_end n i [] zero h = refl
states_from_end n i [] (suc zero) h = refl
states_from_end n i [] (suc (suc j)) h = absurd (ground arith)
states_from_end n i (x ∷ s) zero h = absurd (ground arith)
states_from_end n i (x ∷ s) (suc j) h = states_from_end n (i + 1) s j (ground arith)

states_from_char :
    (n i : ℕ) (s : Bytes) (j : ℕ) {x : ℕ}
    → get_elem? s j ≡ some x
    → get_elem? (states_from n i s) j ≡ some (char_state n (i + j) x)
unfolding states_from
states_from_char n i [] j e = absurd (cc)
states_from_char n i (x ∷ s) zero e = let z : i ≡ i + 0 = omega arith in rw (← some_inj e, ← z) refl
states_from_char n i (x ∷ s) (suc j) e =
    let z : i + 1 + j ≡ i + suc j = omega arith in rw (← z) (states_from_char n (i + 1) s j e)

-- In either of the two last states, every byte differs.
pub feed_end :
    (p : Parser) (s : Bytes) (i c : ℕ)
    → In p s i
    → c < 255
    → (i ≡ length s) ⊎ (i ≡ length s + 1)
    → (q : Parser) × (parser_feed p c ≡ some q)
      × In q s (length s + 1)
      × (q.e1.type ≡ string_cmp_neq)
unfolding parser_utils_strcmpi
feed_end p s i c h l e =
    feed_Picks p s i c (differs (length s + 1) ∷ []) h l (states_from_end (length s) 0 s i e)
      (differs-Picks (length s) c)

pub feed_letter :
    (p : Parser) (s : Bytes) (i c x : ℕ)
    → In p s i
    → c < 255
    → x < 128
    → get_elem? s i ≡ some x
    → (q : Parser) × (parser_feed p c ≡ some q)
      × In q s (if same_letter x c then i + 1 else length s + 1)
      × (q.e1.type ≡ (if same_letter x c then letter_type (length s) i else string_cmp_neq))
unfolding parser_utils_strcmpi
feed_letter p s i c x h l a e =
    let z : 0 + i ≡ i = omega arith in
    feed_Picks p s i c (char_state (length s) i x) h l
      (states_from_char (length s) 0 s i e ∙ ap (λ t. some (char_state (length s) t x)) z)
      (char_state-Picks (length s) i x c a)
