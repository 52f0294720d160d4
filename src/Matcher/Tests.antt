-- ===== src/Matcher/Tests.antt =====
-- The comparison of src/parser_utils.c with "foo", as in src/parser_utils_test.c.
use tpe2026c1_socks.Matcher.Spec.{feed_all, verdict, starts}
use tpe2026c1_socks.Matcher.{
  Parser, ParserDefinition, differs, parser_feed, parser_init, parser_no_classes,
  parser_utils_strcmpi, string_cmp_eq, string_cmp_mayeq, string_cmp_neq,
}
use tpe2026c1_socks.Matcher.Sound.{class_missing, strcmpi-verdict}
use tpe2026c1_socks.Prelude.{Bytes, [], arith, none, refl, some, ◌↔◌, ◌∷◌, ◌≡◌, ◌≤◌}

abbrev foo : Bytes
foo = b'f' ∷ b'o' ∷ b'o' ∷ []

abbrev typed : Bytes
typed = b'O' ∷ b'o' ∷ []

foo_verdicts :
    (verdict foo (b'f' ∷ []) ≡ string_cmp_mayeq)
    × (verdict foo (b'f' ∷ typed) ≡ string_cmp_eq)
    × (verdict foo (b'f' ∷ b'O' ∷ b'o' ∷ b'X' ∷ []) ≡ string_cmp_neq)
unfolding verdict starts
foo_verdicts = (refl, refl, refl)

strcmpi-verdict_example :
    (q : Parser) × (feed_all
        (parser_init parser_no_classes (parser_utils_strcmpi foo))
        (b'f' ∷ typed)
      ≡ some q)
    × (q.e1.type ≡ verdict foo (b'f' ∷ typed))
strcmpi-verdict_example = strcmpi-verdict foo b'f' typed (omega arith) (omega arith)

abbrev one_state : ParserDefinition
one_state = record { states_count = 1; states = (differs 0 ∷ []) ∷ []; start_state = 0 }

class_missing_example :
    (parser_feed (record (parser_init parser_no_classes one_state) { state = 0 }) 255 ≡ none)
    ↔ (255 ≤ 255)
class_missing_example = class_missing one_state 0 (differs 0 ∷ []) 255 refl
