-- ===== src/Matcher/Spec.antt =====
-- Comparison without regard to case, as parser_utils.h describes it, and the parser fed with a text.
use tpe2026c1_socks.Matcher.{Parser, parser_feed, string_cmp_eq, string_cmp_neq, string_cmp_mayeq}
use tpe2026c1_socks.Prelude.{
  Bool, Bytes, Option, [], false, if◌then◌else◌, length, some, true, ℕ, ◌&&◌, ◌==◌, ◌>>=◌, ◌||◌,
  ◌∷◌,
}
use tpe2026c1_socks.Prelude.Text.{tolower, toupper}

-- The byte `c` is the character `x` in one of its two cases.
abbrev pub same_letter : ℕ → ℕ → Bool
same_letter x c = c == tolower x || c == toupper x

-- The text `t` is the beginning of `s`.
unfoldable pub starts : Bytes → Bytes → Bool
starts [] s = true
starts (c ∷ t) [] = false
starts (c ∷ t) (x ∷ s) = same_letter x c && starts t s

-- What the last byte of `t` says of `t` and `s`.
unfoldable pub verdict : Bytes → Bytes → ℕ
verdict s t =
    if starts t s
    then (if length t == length s then string_cmp_eq else string_cmp_mayeq)
    else string_cmp_neq

unfoldable pub feed_all : Parser → Bytes → Option Parser
feed_all p [] = some p
feed_all p (c ∷ t) = parser_feed p c >>= (λ q. feed_all q t)
