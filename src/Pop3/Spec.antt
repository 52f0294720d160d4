-- ===== src/Pop3/Spec.antt =====
-- The commands of a POP3 session, line by line, and the credentials in them.
use tpe2026c1_socks.Pop3.{starts_with, user_word, pass_word}
use tpe2026c1_socks.Prelude.{
  Bool, Bytes, List, [], drop, false, if◌then◌else◌, length, ltb, take, true, ◌&&◌, ◌++◌, ◌-◌, ◌==◌,
  ◌∷◌,
}
use tpe2026c1_socks.Prelude.Memory.{byte_at}
use tpe2026c1_socks.Prelude.Text.{c_string}

-- The complete lines of a text that follows `cur`, the line begun.
unfoldable pub lines : Bytes → Bytes → List Bytes
lines cur [] = []
lines cur (c ∷ cs) = if c == 10 then cur ∷ lines [] cs else lines (cur ++ c ∷ []) cs

-- A line without a carriage return at its end.
abbrev pub chomp : Bytes → Bytes
chomp l = if ltb 0 (length l) && byte_at l (length l - 1) == 13 then take (length l - 1) l else l

-- One command: the user that is remembered, whether there is one, and the credentials found.
unfoldable pub hear : Bytes → Bool → Bytes → Bytes × Bool × List (Bytes × Bytes)
hear user have s =
    if starts_with user_word s
    then (take 255 (drop 5 s), true, [])
    else if starts_with pass_word s && have
    then (user, false, (user, drop 5 s) ∷ [])
    else (user, have, [])

-- All commands; a line longer than 511 bytes is skipped.
unfoldable pub credentials : Bytes → Bool → List Bytes → List (Bytes × Bytes)
credentials user have [] = []
credentials user have (l ∷ ls) =
    let (user', have', out) =
      if ltb 511 (length l) then (user, have, []) else hear user have (c_string (chomp l)) in
    out ++ credentials user' have' ls
