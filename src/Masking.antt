-- ===== src/Masking.antt =====
-- internal/masking/masker.go. The regular expressions are compiled by a parameter: what matters of one is
-- the spans of all its matches, and the text with all of them replaced. The log line is left out.
pub mod Detecting
mod Examples
use ajah.Prelude.{ℕ, Bool, true, false, not, String, List, [], ◌∷◌, ◌++◌}
use ajah.Text.{Bytes, ascii, slice}

-- A regexp's FindAllStringIndex and ReplaceAllString.
pub record Regexp : Type 0 where
  pub find_all : Bytes → List (ℕ × ℕ)
  pub replace_all : Bytes → Bytes → Bytes

pub record PiiMatch : Type 0 where
  pub kind : String
  pub value : Bytes
  pub start : ℕ
  pub end : ℕ

pub record MaskResult : Type 0 where
  pub original : Bytes
  pub masked : Bytes
  pub detected : List PiiMatch
  pub was_masked : Bool

pub record PiiPattern : Type 0 where
  pub name : String
  pub re : Regexp
  pub replacement : Bytes

unfoldable pub pii_patterns : (String → Regexp) → List PiiPattern
pii_patterns compile =
    let pattern_of : String → String → String → PiiPattern = λ name source replacement. record {
      name = name;
      re = compile source;
      replacement = ascii replacement;
    } in
    pattern_of "API_KEY" "\\b(?:sk|pk|key)-[A-Za-z0-9]{20,}\\b" "[API_KEY]"
    ∷ pattern_of "CREDIT_CARD" "\\b(?:\\d{4}[ -]?\\d{4}[ -]?\\d{4}[ -]?\\d{1,7}|\\d{13,19})\\b"
        "[CREDIT_CARD]"
    ∷ pattern_of "SSN" "\\b\\d{3}-\\d{2}-\\d{4}\\b" "[SSN]"
    ∷ pattern_of "EMAIL" "[A-Za-z0-9._%+\\-]+@[A-Za-z0-9.\\-]+\\.[A-Za-z]{2,}" "[EMAIL]"
    ∷ pattern_of "PHONE" "(?:\\+?1[-.\\s]?)?\\(?\\d{3}\\)?[-.\\s]\\d{3}[-.\\s]\\d{4}" "[PHONE]"
    ∷ pattern_of "IP_ADDRESS"
        "\\b(?:(?:25[0-5]|2[0-4]\\d|[01]?\\d\\d?)\\.){3}(?:25[0-5]|2[0-4]\\d|[01]?\\d\\d?)\\b"
        "[IP_ADDRESS]"
    ∷ []

unfoldable pub matches_of : String → Bytes → List (ℕ × ℕ) → List PiiMatch
matches_of name text [] = []
matches_of name text ((start, end) ∷ locs) =
    record { kind = name; value = slice text start end; start = start; end = end }
    ∷ matches_of name text locs

abbrev pub is_none : {A : Type 0} → List A → Bool
is_none [] = true
is_none (x ∷ xs) = false

-- The text after the rounds of the loop, and the matches that they appended.
unfoldable pub mask_round :
    PiiPattern → List (ℕ × ℕ) → Bytes × List PiiMatch → Bytes × List PiiMatch
mask_round p [] (text, found) = (text, found)
mask_round p (l ∷ ls) (text, found) =
    (p.re.replace_all text p.replacement, found ++ matches_of p.name text (l ∷ ls))

unfoldable pub mask_rounds : List PiiPattern → Bytes × List PiiMatch → Bytes × List PiiMatch
mask_rounds [] s = s
mask_rounds (p ∷ ps) s = mask_rounds ps (mask_round p (p.re.find_all s.0) s)

unfoldable pub mask : List PiiPattern → Bytes → MaskResult
mask patterns text =
    let (masked, found) = mask_rounds patterns (text, []) in
    record { original = text; masked = masked; detected = found; was_masked = not (is_none found) }
