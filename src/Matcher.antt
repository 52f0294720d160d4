-- ===== src/Matcher.antt =====
-- src/parser.c, src/parser_utils.c and their headers: the engine of table-driven parsers, and the
-- table that compares a text without regard to case. An access outside an array is `none`.
pub mod Spec
pub mod Steps
pub mod Sound
mod Tests
use tpe2026c1_socks.Prelude.{
  if◌then◌else◌, Bool, Bytes, List, Option, [], false, get_elem?, leb, length, none, replicate, set,
  some, suc, true, zero, ℕ, ◌%◌, ◌&&◌, ◌+◌, ◌-◌, ◌/◌, ◌==◌, ◌>>=◌, ◌^◌, ◌||◌, ◌∷◌,
}
use tpe2026c1_socks.Prelude.Text.{tolower, toupper}

-- `struct parser_event`; `data` is `bytes`, and `next` says whether the pointer leads to the second event or is NULL.
pub record ParserEvent : Type 0 where
  pub type : ℕ
  pub bytes : Bytes
  pub n : ℕ
  pub next : Bool

-- `struct parser_state_transition`; `when` holds a byte, a mask of classes or ANY.
pub record Transition : Type 0 where
  pub when : ℕ
  pub dest : ℕ
  pub act1 : ParserEvent → ℕ → ParserEvent
  pub act2 : Option (ParserEvent → ℕ → ParserEvent)

-- `states` holds for each state its transitions, whose number is `states_n`.
pub record ParserDefinition : Type 0 where
  pub states_count : ℕ
  pub states : List (List Transition)
  pub start_state : ℕ

pub record Parser : Type 0 where
  pub classes : List ℕ
  pub def : ParserDefinition
  pub state : ℕ
  pub e1 : ParserEvent
  pub e2 : ParserEvent

abbrev pub any : ℕ
any = 2 ^ 9

-- What `memset` leaves.
abbrev pub no_event : ParserEvent
no_event = record { type = 0; bytes = replicate 3 0; n = 0; next = false }

unfoldable pub parser_init : List ℕ → ParserDefinition → Parser
parser_init classes def = record {
  classes = classes;
  def = def;
  state = def.start_state;
  e1 = no_event;
  e2 = no_event;
}

unfoldable pub parser_reset : Parser → Parser
parser_reset p = record p { state = p.def.start_state }

-- Whether two `unsigned` values have a bit in common, among their `w` low bits.
unfoldable pub common_bit : ℕ → ℕ → ℕ → Bool
common_bit zero a b = false
common_bit (suc w) a b = (a % 2 == 1 && b % 2 == 1) || common_bit w (a / 2) (b / 2)

-- The test of one transition, for a byte of the class `type`.
unfoldable pub matches : ℕ → ℕ → ℕ → Bool
unfolding common_bit
matches when type c =
    if leb when 0xFF then c == when else if when == any then true else common_bit 32 type when

-- The loop of `parser_feed`: the first transition that matches.
unfoldable pub first_match : List Transition → ℕ → ℕ → Option Transition
unfolding matches
first_match [] type c = none
first_match (t ∷ ts) type c = if matches t.when type c then some t else first_match ts type c

-- The body of the loop behind `matched`.
unfoldable pub act : Option Transition → ℕ → Parser → Parser
act none c p = p
act (some t) c p = elim t.act2 [
  | none ↦ record p { e1 = t.act1 p.e1 c; state = t.dest }
  | some f ↦ record p { e1 = record (t.act1 p.e1 c) { next = true }; e2 = f p.e2 c; state = t.dest }
]

-- The event that is returned is `e1` of the parser that is left.
unfoldable pub parser_feed : Parser → ℕ → Option Parser
unfolding first_match act
parser_feed p c = do
  type ← get_elem? p.classes c
  ts ← get_elem? p.def.states p.state
  some (
      act (first_match ts type c) c
        (record p { e1 = record (p.e1) { next = false }; e2 = record (p.e2) { next = false } }))

-- `classes`, which is declared with 0xFF elements.
unfoldable pub parser_no_classes : List ℕ
parser_no_classes = replicate 0xFF 0

-- `enum string_cmp_event_types`
abbrev pub string_cmp_mayeq : ℕ
string_cmp_mayeq = 0

abbrev pub string_cmp_eq : ℕ
string_cmp_eq = 1

abbrev pub string_cmp_neq : ℕ
string_cmp_neq = 2

-- `may_eq`, `eq` and `neq`, by the type of the event.
unfoldable pub compared : ℕ → ParserEvent → ℕ → ParserEvent
compared type ret c = record ret { type = type; n = 1; bytes = set ret.bytes 0 c }

-- A transition that always applies and says that the texts differ.
abbrev pub differs : ℕ → Transition
differs st_neq = record { when = any; dest = st_neq; act1 = compared string_cmp_neq; act2 = none }

-- The three transitions of state `i`, for the character `x` of a text of length `n`.
unfoldable pub char_state : ℕ → ℕ → ℕ → List Transition
char_state n i x =
    let dest = if i + 1 == n then n else i + 1 in
    let type = if i + 1 == n then string_cmp_eq else string_cmp_mayeq in
    record { when = tolower x; dest = dest; act1 = compared type; act2 = none }
    ∷ record { when = toupper x; dest = dest; act1 = compared type; act2 = none }
    ∷ differs (n + 1)
    ∷ []

-- The loop of `parser_utils_strcmpi` from index `i` on, and the two fixed states.
unfoldable pub states_from : ℕ → ℕ → Bytes → List (List Transition)
unfolding char_state
states_from n i [] = (differs (n + 1) ∷ []) ∷ (differs (n + 1) ∷ []) ∷ []
states_from n i (x ∷ xs) = char_state n i x ∷ states_from n (i + 1) xs

-- Where the three allocations succeed.
unfoldable pub parser_utils_strcmpi : Bytes → ParserDefinition
unfolding states_from
parser_utils_strcmpi s = record {
  states_count = length s + 2;
  states = states_from (length s) 0 s;
  start_state = 0;
}
