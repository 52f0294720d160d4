-- ===== src/Matcher/Sound.antt =====
-- The table of `parser_utils_strcmpi` against the comparison.
use tpe2026c1_socks.Matcher.Steps.{In, Ascii, Fed, class_found, feed_end, feed_letter, letter_type}
use tpe2026c1_socks.Matcher.{
  Parser, ParserDefinition, Transition, parser_feed, parser_init, parser_no_classes,
  parser_utils_strcmpi, string_cmp_neq,
}
use tpe2026c1_socks.Matcher.Spec.{feed_all, same_letter, starts, verdict}
use tpe2026c1_socks.Prelude.{
  Bool-cases, Bytes, List, [], ap, arith, false, get_elem?, inl, inr, length, none, refl, replicate,
  some, suc, sym, true, zero, ℕ, ◌+◌, ◌<◌, ◌==◌, ◌>>=◌, ◌↔◌, ◌∙◌, ◌∷◌, ◌≡◌, ◌≤◌, dec_le,
}

-- Behind a difference the answer stays.
feed_all_end :
    (t : Bytes) (p : Parser) (s : Bytes)
    → In p s (length s + 1)
    → Fed t
    → p.e1.type ≡ string_cmp_neq
    → (q : Parser) × (feed_all p t ≡ some q) × (q.e1.type ≡ string_cmp_neq)
unfolding feed_all
feed_all_end [] p s h f e = (p, refl, e)
feed_all_end (c ∷ t) p s h f e =
    let (q, fed, k, d) = feed_end p s (length s + 1) c h f.0 (inr refl) in
    let (r, done, last) = feed_all_end t q s k f.1 d in (r, rw (fed, ◌>>=◌) done, last)

verdict-step :
    (x c d : ℕ) (rest t : Bytes)
    → same_letter x c ≡ true
    → verdict (x ∷ rest) (c ∷ d ∷ t) ≡ verdict rest (d ∷ t)
unfolding verdict starts
verdict-step x c d rest t h =
    let e : (suc (suc (length t)) == suc (length rest)) ≡ (suc (length t) == length rest) =
      ground arith in
    rw (h, e) refl

verdict-other :
    (x c : ℕ) (rest t : Bytes)
    → same_letter x c ≡ false
    → verdict (x ∷ rest) (c ∷ t) ≡ string_cmp_neq
unfolding verdict starts
verdict-other x c rest t h = rw h refl

verdict-last :
    (x c n i : ℕ) (rest : Bytes)
    → same_letter x c ≡ true
    → i + length (x ∷ rest) ≡ n
    → letter_type n i ≡ verdict (x ∷ rest) (c ∷ [])
unfolding verdict starts letter_type
verdict-last x c n i rest h l =
    let e : (i + 1 == n) ≡ (1 == suc (length rest)) = ground arith in rw (h, e) refl

-- The texts differ at this byte, or did before.
run_other :
    (t : Bytes) (c x : ℕ) (rest : Bytes) (p : Parser) (s : Bytes) (i : ℕ)
    → In p s i
    → x < 128
    → Fed (c ∷ t)
    → get_elem? s i ≡ some x
    → same_letter x c ≡ false
    → (q : Parser) × (feed_all p (c ∷ t) ≡ some q) × (q.e1.type ≡ verdict (x ∷ rest) (c ∷ t))
unfolding feed_all
run_other t c x rest p s i h a f e other =
    let (q, fed, k, d) = feed_letter p s i c x h f.0 a e in
    let (r, done, last) = feed_all_end t q s (rw other at k) f.1 (rw other at d) in
    (r, rw (fed, ◌>>=◌) done, last ∙ sym (verdict-other x c rest t other))

run_from :
    (t : Bytes) (c : ℕ) (rest : Bytes) (p : Parser) (s : Bytes) (i : ℕ)
    → In p s i
    → ((j : ℕ) → get_elem? s (i + j) ≡ get_elem? rest j)
    → i + length rest ≡ length s
    → Ascii rest
    → Fed (c ∷ t)
    → (q : Parser) × (feed_all p (c ∷ t) ≡ some q) × (q.e1.type ≡ verdict rest (c ∷ t))
unfolding feed_all verdict starts
run_from t c [] p s i h w l a f =
    let (q, fed, k, d) = feed_end p s i c h f.0 (inl (omega arith)) in
    let (r, done, last) = feed_all_end t q s k f.1 d in (r, rw (fed, ◌>>=◌) done, last)
run_from [] c (x ∷ rest) p s i h w l a f =
    let e : get_elem? s i ≡ some x = ap (get_elem? s) (omega arith) ∙ w 0 in
    elim (Bool-cases (same_letter x c)) [
      | inr other ↦ run_other [] c x rest p s i h a.0 f e other
      | inl same ↦
          let (q, fed, k, d) = feed_letter p s i c x h f.0 a.0 e in
          (q, rw (fed, ◌>>=◌) refl, rw same at d ∙ verdict-last x c (length s) i rest same l)
    ]
run_from (c' ∷ t) c (x ∷ rest) p s i h w l a f =
    let e : get_elem? s i ≡ some x = ap (get_elem? s) (omega arith) ∙ w 0 in
    elim (Bool-cases (same_letter x c)) [
      | inr other ↦ run_other (c' ∷ t) c x rest p s i h a.0 f e other
      | inl same ↦
          let (q, fed, k, d) = feed_letter p s i c x h f.0 a.0 e in
          let (r, done, last) =
            run_from t c' rest q s (i + 1) (rw same at k)
              (λ j. ap (get_elem? s) (omega arith) ∙ w (suc j)) (omega (arith, l)) a.1 f.1 in
          (r, rw (fed, ◌>>=◌) done, last ∙ sym (verdict-step x c c' rest t same))
    ]

-- The parser that `parser_utils_strcmpi` describes for an ASCII text `s`, with the classes of
-- `parser_no_classes`, fed with a text of one or more bytes below 255: no access leaves an array,
-- and the type of the last event is STRING_CMP_EQ exactly where the text is `s` in any case,
-- STRING_CMP_MAYEQ where it is a proper beginning of `s`, and STRING_CMP_NEQ otherwise.
pub strcmpi-verdict :
    (s : Bytes) (c : ℕ) (t : Bytes)
    → Ascii s
    → Fed (c ∷ t)
    → (q : Parser) × (feed_all (parser_init parser_no_classes (parser_utils_strcmpi s)) (c ∷ t)
        ≡ some q)
      × (q.e1.type ≡ verdict s (c ∷ t))
unfolding parser_init parser_utils_strcmpi
strcmpi-verdict s c t a f =
    run_from t c s (parser_init parser_no_classes (parser_utils_strcmpi s)) s 0
      (record { classes = refl; def = refl; state = refl }) (λ j. ap (get_elem? s) (omega arith))
      (omega arith) a f

replicate_end : (n c : ℕ) → n ≤ c → get_elem? {A = ℕ} (replicate n 0) c ≡ none
replicate_end zero c h = refl
replicate_end (suc n) zero h = absurd (omega (arith, h))
replicate_end (suc n) (suc c) h = replicate_end n c (omega arith)

class_end : (c : ℕ) → 255 ≤ c → get_elem? parser_no_classes c ≡ none
unfolding parser_no_classes
class_end c h = replicate_end 255 c h

-- With the classes of `parser_no_classes`, in a state that the definition has, `parser_feed` reads
-- behind the array of classes exactly for the bytes from 255 on, of which there is one.
pub class_missing :
    (def : ParserDefinition) (state : ℕ) (ts : List Transition) (c : ℕ)
    → get_elem? def.states state ≡ some ts
    → (parser_feed (record (parser_init parser_no_classes def) { state = state }) c ≡ none)
      ↔ (255 ≤ c)
unfolding parser_feed parser_init
class_missing def state ts c e = (
  λ h. elim (dec_le 255 c) [
    | yes k ↦ k
    | no k ↦ absurd (cc (rw (class_found c (omega arith), ◌>>=◌, e) at h))
  ],
  λ h. rw (class_end c h, ◌>>=◌) refl,
)
