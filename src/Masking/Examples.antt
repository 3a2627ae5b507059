-- ===== src/Masking/Examples.antt =====
-- The theorem about Mask at a text without matches.
use ajah.Prelude.{◌≡◌, refl, false, String, [], length}
use ajah.Text.{ascii}
use ajah.Masking.{Regexp, pii_patterns, mask, mask_rounds, mask_round}
use ajah.Masking.Detecting.{mask-unmasked}

abbrev compile : String → Regexp
compile source = record { find_all = λ text. []; replace_all = λ text replacement. text }

unmasked : (mask (pii_patterns compile) (ascii "hello")).was_masked ≡ false
unfolding mask pii_patterns mask_rounds mask_round
unmasked = refl

mask-unmasked_example :
    ((mask (pii_patterns compile) (ascii "hello")).masked ≡ ascii "hello")
    × (length (mask (pii_patterns compile) (ascii "hello")).detected ≡ 0)
mask-unmasked_example = mask-unmasked (pii_patterns compile) (ascii "hello") unmasked
