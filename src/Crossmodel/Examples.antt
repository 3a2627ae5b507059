-- ===== src/Crossmodel/Examples.antt =====
-- The theorems about verification at concrete texts and peers, and tests.
use ajah.Prelude.{
  ℕ, ◌≤◌, ◌≡◌, refl, true, String, str_eq, [], ◌∷◌, none, some, ok, err, if◌then◌else◌, for_range,
  ◌⊎◌,
}
use ajah.Text.{ascii}
use ajah.Float.Scaled.{scaled, scaled-IsOrdered}
use ajah.Crossmodel.{
  Peer, classify, levenshtein_ratio, ratio_of, cap_runes, call_secondary, compare_responses,
  VerificationResult, verify, CallError,
}
use ajah.Crossmodel.Distance.{levenshtein_dist, min_of_3}
use ajah.Crossmodel.Edits.{
  Edits, done, remove, insert, levenshtein_dist-Edits, levenshtein_dist-least,
}
use ajah.Crossmodel.Verifying.{
  levenshtein_ratio-InUnit, verify_cases, with_statuses, compare_responses-any_status,
}

kitten_sitting : levenshtein_dist (ascii "kitten") (ascii "sitting") ≡ some 3
unfolding levenshtein_dist min_of_3 for_range
kitten_sitting = refl

half_alike : levenshtein_ratio scaled (ascii "abcd") (ascii "abxy") ≡ some 500
unfolding levenshtein_ratio ratio_of cap_runes levenshtein_dist min_of_3 for_range
half_alike = refl

levenshtein_dist-Edits_example :
    (d : ℕ) × (levenshtein_dist (ascii "ab") (ascii "b") ≡ some d)
    × Edits (ascii "ab") (ascii "b") 2 1 d
levenshtein_dist-Edits_example = levenshtein_dist-Edits (ascii "ab") (ascii "b")

levenshtein_dist-least_example : 1 ≤ 2
unfolding levenshtein_dist min_of_3 for_range
levenshtein_dist-least_example =
    levenshtein_dist-least (ascii "a") (ascii "b") 1 2 refl (remove (insert done))

levenshtein_ratio-InUnit_example :
    (r : ℕ) × (levenshtein_ratio scaled (ascii "ab") (ascii "b") ≡ some r)
    × (scaled.leb 0 r ≡ true)
    × (scaled.leb r 1000 ≡ true)
levenshtein_ratio-InUnit_example =
    levenshtein_ratio-InUnit scaled scaled-IsOrdered (ascii "ab") (ascii "b")

-- A provider that answers "yes", and a scorer whose every reply is an error page.
abbrev provider : Peer scaled
provider = record {
  Body = String;
  encode_chat = λ model prompt. some "chat";
  encode_compare = λ a b prompt. some "compare";
  is_url = λ url. true;
  post =
      λ url key body. if str_eq body "chat" then some (200, some "yes") else some (500, some "{}");
  decode_chat = λ body. some ("yes" ∷ []);
  decode_compare = λ body. if str_eq body "{}" then some (0, none) else none;
  runes = ascii;
}

-- A provider whose scorer cannot be reached.
abbrev alone : Peer scaled
alone = record provider {
  post = λ url key body. if str_eq body "chat" then some (200, some "yes") else none;
}

verify_cases_example :
    ((e : CallError) × (call_secondary scaled alone "http://scorer" "p" "u" "k" "m" ≡ err e)
      × (verify scaled alone "http://scorer" "p" "yes!" "gpt" "u" "k" "m" ≡ some (err e)))
    ⊎ ((r : VerificationResult scaled) × (call_secondary scaled alone "http://scorer" "p" "u" "k"
            "m"
          ≡ ok r.secondary_response)
        × (verify scaled alone "http://scorer" "p" "yes!" "gpt" "u" "k" "m" ≡ some (ok r))
        × ((r.verdict, r.risk_level) ≡ classify scaled r.agreement_score))
verify_cases_example =
    verify_cases scaled scaled-IsOrdered alone "http://scorer" "p" "yes!" "gpt" "u" "k" "m"

-- The scorer's error pages count as answers with status 200 would.
compare_responses-any_status_example :
    compare_responses scaled
      (with_statuses scaled (λ status. 200) provider)
      "http://scorer"
      "p"
      "yes"
      "yes"
    ≡ compare_responses scaled provider "http://scorer" "p" "yes" "yes"
compare_responses-any_status_example =
    compare_responses-any_status scaled (λ status. 200) provider "http://scorer" "p" "yes" "yes"
