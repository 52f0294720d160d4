-- ===== src/Client/Frame.antt =====
-- Frames of length-prefixed fields: where the fields of such a frame are found.
use tpe2026c1_socks.Prelude.{
  Bytes, [], ap, append_assoc, arith, length, length-append, refl, sym, ℕ, ◌++◌, ◌+◌, ◌∙◌, ◌∷◌, ◌≡◌,
  append-nil,
}
use tpe2026c1_socks.Prelude.Memory.{byte_at, byte_at-append, window, window-append}

-- Two fields behind `pre`, each with its length in front.
abbrev pub two_fields : Bytes → Bytes → Bytes → Bytes → Bytes
two_fields pre u w rest = pre ++ (length u ∷ (u ++ (length w ∷ (w ++ rest))))

module _ (pre u w rest : Bytes) where
  pub length-two_fields :
      length (two_fields pre u w rest) ≡ length pre + 2 + length u + length w + length rest
  length-two_fields = omega (
    arith,
    length-append pre (length u ∷ (u ++ (length w ∷ (w ++ rest)))),
    length-append u (length w ∷ (w ++ rest)),
    length-append w rest,
  )

  regroup : two_fields pre u w rest ≡ (pre ++ length u ∷ u) ++ (length w ∷ (w ++ rest))
  regroup = sym (append_assoc pre (length u ∷ u) (length w ∷ (w ++ rest)))

  pub first_length : (i : ℕ) → i ≡ length pre → byte_at (two_fields pre u w rest) i ≡ length u
  first_length i e = byte_at-append pre (length u) (u ++ (length w ∷ (w ++ rest))) i e

  pub second_length :
      (i : ℕ) → i ≡ length pre + 1 + length u → byte_at (two_fields pre u w rest) i ≡ length w
  second_length i e =
      ap (λ p. byte_at p i) regroup
      ∙ byte_at-append (pre ++ length u ∷ u) (length w) (w ++ rest) i
          (omega (arith, length-append pre (length u ∷ u)))

  pub first_field : (i : ℕ) → i ≡ length pre + 1 → window (two_fields pre u w rest) i (length u) ≡ u
  first_field i e =
      ap (λ p. window p i (length u))
        (sym (append_assoc pre (length u ∷ []) (u ++ (length w ∷ (w ++ rest)))))
      ∙ window-append (pre ++ length u ∷ []) u (length w ∷ (w ++ rest)) i (length u)
          (omega (arith, length-append pre (length u ∷ []))) refl

  pub second_field :
      (i : ℕ) → i ≡ length pre + 2 + length u → window (two_fields pre u w rest) i (length w) ≡ w
  second_field i e =
      ap (λ p. window p i (length w))
        (regroup ∙ sym (append_assoc (pre ++ length u ∷ u) (length w ∷ []) (w ++ rest)))
      ∙ window-append ((pre ++ length u ∷ u) ++ length w ∷ []) w rest i (length w)
          (omega (
            arith,
            length-append pre (length u ∷ u),
            length-append (pre ++ length u ∷ u) (length w ∷ []),
          ))
          refl

pub two_fields-append :
    (pre u w rest : Bytes) → two_fields pre u w [] ++ rest ≡ two_fields pre u w rest
two_fields-append pre u w rest = simp (append_assoc, append-nil)
