-- ===== src/Masking/Detecting.antt =====
-- What the result of masking says of the text.
use ajah.Prelude.{ℕ, ◌≤◌, ◌≡◌, refl, ◌∙◌, true, false, List, [], ◌∷◌, length, length-append, arith}
use ajah.Text.{Bytes}
use ajah.Masking.{PiiPattern, PiiMatch, matches_of, is_none, mask_round, mask_rounds, mask}

-- Rounds only append matches.
length-mask_round :
    (p : PiiPattern) (ls : List (ℕ × ℕ)) (s : Bytes × List PiiMatch)
    → length s.1 ≤ length (mask_round p ls s).1
unfolding mask_round
length-mask_round p [] s = omega arith
length-mask_round p (l ∷ ls) s = omega (arith, length-append s.1 (matches_of p.name s.0 (l ∷ ls)))

length-mask_rounds :
    (ps : List PiiPattern) (s : Bytes × List PiiMatch) → length s.1 ≤ length (mask_rounds ps s).1
unfolding mask_rounds
length-mask_rounds [] s = omega arith
length-mask_rounds (p ∷ ps) s = omega (
  arith,
  length-mask_round p (p.re.find_all s.0) s,
  length-mask_rounds ps (mask_round p (p.re.find_all s.0) s),
)

-- A round that appends nothing leaves the text.
mask_round-kept :
    (p : PiiPattern) (ls : List (ℕ × ℕ)) (s : Bytes × List PiiMatch)
    → length (mask_round p ls s).1 ≡ length s.1
    → (mask_round p ls s).0 ≡ s.0
unfolding mask_round matches_of
mask_round-kept p [] s h = refl
mask_round-kept p ((a, b) ∷ ls) s h =
    absurd (omega (arith, h, length-append s.1 (matches_of p.name s.0 ((a, b) ∷ ls))))

mask_rounds-kept :
    (ps : List PiiPattern) (s : Bytes × List PiiMatch)
    → length (mask_rounds ps s).1 ≡ length s.1
    → (mask_rounds ps s).0 ≡ s.0
unfolding mask_rounds
mask_rounds-kept [] s h = refl
mask_rounds-kept (p ∷ ps) s h =
    let next : Bytes × List PiiMatch = mask_round p (p.re.find_all s.0) s in
    let grows : length s.1 ≤ length next.1 = length-mask_round p (p.re.find_all s.0) s in
    let keeps : length next.1 ≤ length (mask_rounds ps next).1 = length-mask_rounds ps next in
    mask_rounds-kept ps next (omega arith) ∙ mask_round-kept p (p.re.find_all s.0) s (omega arith)

none_length : (xs : List PiiMatch) → is_none xs ≡ true → length xs ≡ 0
none_length [] h = refl
none_length (x ∷ xs) h = absurd (ground arith)

-- Whatever the patterns are: a text that is not reported as masked is passed on unchanged, with no
-- match.
pub mask-unmasked :
    (patterns : List PiiPattern) (text : Bytes)
    → (mask patterns text).was_masked ≡ false
    → ((mask patterns text).masked ≡ text) × (length (mask patterns text).detected ≡ 0)
unfolding mask
mask-unmasked patterns text h =
    let empty : length (mask_rounds patterns (text, [])).1 ≡ 0 =
      none_length (mask_rounds patterns (text, [])).1 (ground arith) in
    (mask_rounds-kept patterns (text, []) empty, empty)
