-- ===== src/Pop3/Tests.antt =====
-- A POP3 login for the sniffer of src/pop3.c.
use tpe2026c1_socks.Pop3.Spec.{credentials, lines, hear}
use tpe2026c1_socks.Pop3.{Sniffer, pop3_sniffer_feed, pop3_sniffer_init, starts_with}
use tpe2026c1_socks.Pop3.Sound.{pop3_sniffer-credentials}
use tpe2026c1_socks.Prelude.{
  Bytes, List, [], false, length-replicate, refl, replicate, some, true, ℕ, ◌∷◌, ◌≡◌,
}

-- "user a", a carriage return, "PASS b", each with a newline.
abbrev login : Bytes
login =
    b'u' ∷ b's' ∷ b'e' ∷ b'r' ∷ b' ' ∷ b'a' ∷ 13 ∷ 10 ∷ b'P' ∷ b'A' ∷ b'S' ∷ b'S' ∷ b' ' ∷ b'b' ∷ 10
    ∷ []

abbrev idle : Sniffer
idle = record { line = replicate 512 7; len = 3; overflow = true; user = []; have_user = true }

found_login : credentials [] false (lines [] login) ≡ (b'a' ∷ [], b'b' ∷ []) ∷ []
unfolding credentials lines hear starts_with
found_login = refl

pop3_sniffer-credentials_example :
    (q : Sniffer) × (out : List (Bytes × Bytes)) × (pop3_sniffer_feed (pop3_sniffer_init idle) login
      ≡ some (q, out))
    × (out ≡ credentials [] false (lines [] login))
pop3_sniffer-credentials_example =
    pop3_sniffer-credentials idle login (length-replicate {A = ℕ} 512 7)
