-- ===== src/Proxy/Payload.antt =====
-- extractTokens, extractModel, extractResponse and extractPrompt. What encoding/json reads from a body
-- is a parameter: nothing, where it fails.
use ajah.Prelude.{Bool, List, [], ◌∷◌, ◌++◌, Option, none, some, if◌then◌else◌, ◌&&◌, not}
use ajah.Text.{Bytes, ascii, is_empty}

pub record Codec : Type 1 where
  -- int
  pub Int : Type 0
  pub zero_int : Int
  -- The fields prompt_tokens and completion_tokens of usage.
  pub usage : Bytes → Option (Int × Int)
  pub model : Bytes → Option Bytes
  -- The content of each of messages, and of the message of each of choices.
  pub messages : Bytes → Option (List Bytes)
  pub choices : Bytes → Option (List Bytes)
  -- The type, whether it is "text", and the text of each of content.
  pub contents : Bytes → Option (List (Bool × Bytes))

-- strings.Join(parts, " ")
unfoldable pub join_blank : List Bytes → Bytes
join_blank [] = []
join_blank (p ∷ []) = p
join_blank (p ∷ q ∷ ps) = p ++ (ascii " " ++ join_blank (q ∷ ps))

unfoldable pub not_empty : List Bytes → List Bytes
not_empty [] = []
not_empty (p ∷ ps) = let rest = not_empty ps in if is_empty p then rest else p ∷ rest

unfoldable pub first_text : List (Bool × Bytes) → Bytes
first_text [] = []
first_text ((is_text, t) ∷ cs) =
    let rest = first_text cs in if is_text && not (is_empty t) then t else rest

module _ (json : Codec) where
  unfoldable pub extract_tokens : Bytes → json.Int × json.Int
  extract_tokens body = elim (json.usage body) [
    | some tokens ↦ tokens
    | none ↦ (json.zero_int, json.zero_int)
  ]

  unfoldable pub extract_model : Bytes → Bytes
  extract_model body = elim (json.model body) [ some model ↦ model | none ↦ [] ]

  abbrev anthropic_text : Bytes → Bytes
  anthropic_text body = elim (json.contents body) [ some cs ↦ first_text cs | none ↦ [] ]

  unfoldable pub extract_response : Bytes → Bytes
  extract_response body = elim (json.choices body) [
    | some (content ∷ _) ↦ content
    | some [] ↦ anthropic_text body
    | none ↦ anthropic_text body
  ]

  unfoldable pub extract_prompt : Bytes → Bytes
  unfolding not_empty join_blank
  extract_prompt body = elim (json.messages body) [
    | some messages ↦ join_blank (not_empty messages)
    | none ↦ []
  ]
