-- ===== src/Fallback/Rewrite.antt =====
-- rewriteModel: the textual replacement of the model in a request body.
use ajah.Prelude.{
  ℕ, suc, ◌+◌, Bool, ◌||◌, [], ◌∷◌, ◌++◌, Option, none, some, ◌==◌, if◌then◌else◌, take, drop,
}
use ajah.Text.{Bytes, ascii, has_prefix}

abbrev shift : Option ℕ → Option ℕ
shift none = none
shift (some i) = some (suc i)

-- strings.Index of a needle that is not empty; -1 is `none`.
unfoldable pub index : Bytes → Bytes → Option ℕ
unfolding has_prefix
index [] needle = none
index (c ∷ s) needle =
    let rest = shift (index s needle) in if has_prefix (c ∷ s) needle then some 0 else rest

abbrev is_blank : ℕ → Bool
is_blank c = c == b' ' || c == 9 || c == 10 || c == 13

-- strings.TrimLeft(s, " \t\n\r")
unfoldable pub trim_left : Bytes → Bytes
trim_left [] = []
trim_left (c ∷ s) = if is_blank c then trim_left s else c ∷ s

abbrev quote : Bytes
quote = b'"' ∷ []

-- The replacement once the opening quote has been found: without a closing quote strings.Index gives
-- -1, and the value ends where it starts.
abbrev replace_value : Bytes → Bytes → ℕ → Bytes
replace_value s new_model val_start =
    let val_end : ℕ = elim (index (drop (val_start + 1) s) quote) [
      | none ↦ val_start + 1
      | some i ↦ val_start + 1 + i + 1
    ] in
    take val_start s ++ (quote ++ (new_model ++ (quote ++ drop val_end s)))

unfoldable pub rewrite_model : Bytes → Bytes → Bytes
unfolding index trim_left
rewrite_model body new_model = elim (index body (ascii "\"model\"")) [
  | none ↦ body
  | some start ↦ elim (index (drop start body) (ascii ":")) [
    | none ↦ body
    | some colon ↦
        let rest = drop (start + colon + 1) body in
        if has_prefix (trim_left rest) quote
        then (elim (index rest quote) [
          | none ↦ body
          | some i ↦ replace_value body new_model (start + colon + 1 + i)
        ])
        else body
  ]
]
