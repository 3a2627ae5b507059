-- ===== src/Text/Prefixes.antt =====
-- Native strings with a fixed beginning, as the gateway's Redis keys are: when two of them differ.
use Prim.Native.String.{◌++◌ as str_append, slice, len}
use text.Mathlib.TextPositions.{slice-append_left, len-append}
use text.Mathlib.TextLemmas.{append_cancel_left, append_assoc}
use ajah.Prelude.{◌+◌, ◌≡◌, sym, ap, ◌∙◌, false, ◌&&◌, String, str_eq, eq_iff, arith}

-- Two texts with beginnings of the same length begin alike if they are the same.
pub append-begins :
    (s s' t t' : String) → len s ≡ len s' → str_append s t ≡ str_append s' t' → s ≡ s'
append-begins s s' t t' equal h =
    sym (slice-append_left s t)
    ∙ ap (λ v. slice v 0 (len s)) h
    ∙ ap (slice (str_append s' t') 0) equal
    ∙ slice-append_left s' t'

-- Two texts with ends of the same length begin alike if they are the same.
pub append-ends : (s s' t t' : String) → len t ≡ len t' → str_append s t ≡ str_append s' t' → s ≡ s'
append-ends s s' t t' same h =
    let lengths : len s + len t ≡ len s' + len t' =
      sym (len-append s t) ∙ ap len h ∙ len-append s' t' in
    append-begins s s' t t' (omega (arith, lengths, same)) h

regroup :
    (a b c d : String)
    → str_append (str_append a (str_append b c)) d ≡ str_append a (str_append b (str_append c d))
regroup a b c d = append_assoc a (str_append b c) d ∙ ap (str_append a) (append_assoc b c d)

-- Two fixed beginnings that differ in some letters after a common part give different texts.
pub unlike :
    (common c d p q s t : String)
    → len c ≡ len d
    → str_eq c d ≡ false
    → str_eq
        (str_append (str_append common (str_append c p)) s)
        (str_append (str_append common (str_append d q)) t)
      ≡ false
unlike common c d p q s t same differ =
    let left : String = str_append (str_append common (str_append c p)) s in
    let right : String = str_append (str_append common (str_append d q)) t in
    ground (
      arith,
      eq_iff left right,
      eq_iff c d,
      (λ (h : left ≡ right). append-begins c d (str_append p s) (str_append q t) same (
          append_cancel_left common (str_append c (str_append p s)) (str_append d (str_append q t))
            (sym (regroup common c p s) ∙ h ∙ regroup common d q t))),
    )

-- A name between a fixed beginning and a separator, and then a text.
abbrev pub joined : String → String → String → String → String
joined kind sep name rest = str_append kind (str_append name (str_append sep rest))

joined-injective :
    (kind sep a b rest rest' : String)
    → len rest ≡ len rest'
    → joined kind sep a rest ≡ joined kind sep b rest'
    → (a ≡ b) × (rest ≡ rest')
joined-injective kind sep a b rest rest' same h =
    let ends : str_append a (str_append sep rest) ≡ str_append b (str_append sep rest') =
      append_cancel_left kind (str_append a (str_append sep rest))
        (str_append b (str_append sep rest')) h in
    let lengths : len (str_append sep rest) ≡ len (str_append sep rest') =
      len-append sep rest ∙ ap (λ n. len sep + n) same ∙ sym (len-append sep rest') in
    let names : a ≡ b = append-ends a b (str_append sep rest) (str_append sep rest') lengths ends in
    let tails : str_append b (str_append sep rest) ≡ str_append b (str_append sep rest') =
      ap (λ n. str_append n (str_append sep rest)) (sym names) ∙ ends in
    (
      names,
      append_cancel_left sep rest rest'
          (append_cancel_left b (str_append sep rest) (str_append sep rest') tails),
    )

-- Texts that are joined tell name and end apart, for ends of the same length.
pub joined_eq :
    (kind sep a b rest rest' : String)
    → len rest ≡ len rest'
    → str_eq (joined kind sep a rest) (joined kind sep b rest') ≡ (str_eq a b && str_eq rest rest')
joined_eq kind sep a b rest rest' same = ground (
  arith,
  eq_iff (joined kind sep a rest) (joined kind sep b rest'),
  eq_iff a b,
  eq_iff rest rest',
  joined-injective kind sep a b rest rest' same,
  (λ (p : a ≡ b) (q : rest ≡ rest'). ap (λ n. joined kind sep n rest) p ∙ ap (joined kind sep b) q),
)
