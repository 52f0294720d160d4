-- ===== src/Pop3.antt =====
-- src/pop3.c and src/pop3.h: the sniffer that finds the credentials of a POP3 session. What it
-- passes to the callback is returned, in order. A store outside the line's array is `none`.
pub mod Spec
pub mod Line
pub mod Sound
mod Tests
use tpe2026c1_socks.Prelude.{
  if◌then◌else◌, Bool, Bytes, List, Option, [], drop, false, ltb, not, some, take, true, ℕ, ◌&&◌,
  ◌++◌, ◌+◌, ◌-◌, ◌==◌, ◌>>=◌, ◌∷◌,
}
use tpe2026c1_socks.Prelude.Memory.{byte_at, store}
use tpe2026c1_socks.Prelude.Text.{c_string, tolower}

-- `line` is the array, 512 bytes; `user` is the C string of its array.
pub record Sniffer : Type 0 where
  pub line : Bytes
  pub len : ℕ
  pub overflow : Bool
  pub user : Bytes
  pub have_user : Bool

abbrev pub line_size : ℕ
line_size = 512

abbrev pub pop3_port : ℕ
pop3_port = 110

abbrev pub user_size : ℕ
user_size = 256

unfoldable pub pop3_sniffer_init : Sniffer → Sniffer
pop3_sniffer_init p = record p { len = 0; overflow = false; have_user = false; user = [] }

-- `strncasecmp(s, word, n) == 0`, where `word` has `n` letters.
unfoldable pub starts_with : Bytes → Bytes → Bool
starts_with [] s = true
starts_with (w ∷ ws) [] = false
starts_with (w ∷ ws) (c ∷ s) = tolower w == tolower c && starts_with ws s

abbrev pub user_word : Bytes
user_word = b'U' ∷ b'S' ∷ b'E' ∷ b'R' ∷ b' ' ∷ []

abbrev pub pass_word : Bytes
pass_word = b'P' ∷ b'A' ∷ b'S' ∷ b'S' ∷ b' ' ∷ []

-- `process_line`; where the word was found, the pointer `line + 5` lies inside the string.
unfoldable pub process_line : Sniffer → Sniffer × List (Bytes × Bytes)
unfolding starts_with
process_line p =
    let s = c_string p.line in
    if starts_with user_word s
    then (record p { user = take (user_size - 1) (drop 5 s); have_user = true }, [])
    else if starts_with pass_word s && p.have_user
    then (record p { have_user = false }, (p.user, drop 5 s) ∷ [])
    else (p, [])

-- Where the line ends, without a carriage return.
unfoldable pub line_end : Sniffer → ℕ
line_end p = if ltb 0 p.len && byte_at p.line (p.len - 1) == 13 then p.len - 1 else p.len

abbrev pub next_line : Sniffer × List (Bytes × Bytes) → Sniffer × List (Bytes × Bytes)
next_line (p, out) = (record p { len = 0; overflow = false }, out)

-- The body of the loop of `pop3_sniffer_feed`.
unfoldable pub feed_byte : Sniffer → ℕ → Option (Sniffer × List (Bytes × Bytes))
feed_byte p c =
    if c == 10
    then (do
      d ← store p.line (line_end p) (0 ∷ [])
      let q = record p { line = d }
      some (next_line (if not p.overflow then process_line q else (q, []))))
    else if not p.overflow
    then (if ltb p.len (line_size - 1)
        then (do d ← store p.line p.len (c ∷ []); some (record p { line = d; len = p.len + 1 }, []))
        else some (record p { overflow = true }, []))
    else some (p, [])

unfoldable pub pop3_sniffer_feed : Sniffer → Bytes → Option (Sniffer × List (Bytes × Bytes))
unfolding feed_byte
pop3_sniffer_feed p [] = some (p, [])
pop3_sniffer_feed p (c ∷ cs) = do
  (q, out) ← feed_byte p c
  (r, more_out) ← pop3_sniffer_feed q cs
  some (r, out ++ more_out)
